-- ===== src/Frontend/LocalStorage.antt =====
-- The browser's `localStorage` under one key, as the front end's stores use it.
use accord_protocol.Prelude.{◌≡◌, Option, some}

pub record LocalStorage (A : Type 0) : Type 1 where
  pub Store : Type 0
  -- `JSON.parse(localStorage.getItem(key))`: nothing when the item is missing or does not parse, or
  -- when the storage throws.
  pub read : Store → Option A
  -- `localStorage.setItem(key, JSON.stringify(value))`: nothing when the storage throws.
  pub write : Store → A → Option Store
  -- What was written is read back.
  pub read-write : (s t : Store) (a : A) → write s a ≡ some t → read t ≡ some a
