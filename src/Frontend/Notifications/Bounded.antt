-- ===== src/Frontend/Notifications/Bounded.antt =====
-- The log of notifications against a relation that says what each operation may make of it.
use accord_protocol.Prelude.{
  ℕ, zero, suc, ◌≤◌, String, ◌≡◌, refl, ap, ◌∙◌, subst, sym, Option, none, some, List, [], ◌∷◌, map,
  take, length, length-take, length-map, arith, false, true, ◌≢◌, str_eq, eq_iff, Bool-cases, inl,
  inr,
}
use accord_protocol.Frontend.LocalStorage.{LocalStorage}
use accord_protocol.Frontend.Notifications.{
  NotificationEventType, NotificationRecord, max_entries, read_one, read_it, State,
  get_notifications, persist, add_notification, mark_notification_read, mark_all_notifications_read,
  clear_notifications,
}

take-whole : {A : Type 0} (n : ℕ) (xs : List A) → length xs ≤ n → take n xs ≡ xs
take-whole zero [] h = refl
take-whole zero (x ∷ xs) h = absurd (omega arith)
take-whole (suc n) [] h = refl
take-whole (suc n) (x ∷ xs) h = ap (λ ys. x ∷ ys) (take-whole n xs (omega arith))

-- The operations, with the id and the date that an added record is given.
pub data Operation : Type 0 where
  add : (type_ : NotificationEventType) (title body id created_at : String) → Operation
  mark : String → Operation
  mark_all : Operation
  clear : Operation

-- The record with the same contents that has been read.
abbrev pub seen : NotificationRecord → NotificationRecord
seen n = record {
  id = n.id;
  type_ = n.type_;
  title = n.title;
  body = n.body;
  created_at = n.created_at;
  read = true;
}

-- The records with the id `id` are read in the second list, and all others are as in the first.
pub data Marked (id : String) : List NotificationRecord → List NotificationRecord → Type 0 where
  nothing : Marked id [] []
  named :
      {n : NotificationRecord} {ns ms : List NotificationRecord}
      → n.id ≡ id
      → Marked id ns ms
      → Marked id (n ∷ ns) (seen n ∷ ms)
  other :
      {n : NotificationRecord} {ns ms : List NotificationRecord}
      → n.id ≢ id
      → Marked id ns ms
      → Marked id (n ∷ ns) (n ∷ ms)

pub data AllRead : List NotificationRecord → List NotificationRecord → Type 0 where
  nothing : AllRead [] []
  next :
      {n : NotificationRecord} {ns ms : List NotificationRecord}
      → AllRead ns ms
      → AllRead (n ∷ ns) (seen n ∷ ms)

-- What each operation may make of a log.
pub data Described : Operation → List NotificationRecord → List NotificationRecord → Type 0 where
  -- The new record is first and unread, and of the others the 99 newest are kept.
  added :
      {type_ : NotificationEventType} {title body id created_at : String}
      {ns : List NotificationRecord}
      → Described (add type_ title body id created_at) ns (
          record {
            id = id;
            type_ = type_;
            title = title;
            body = body;
            created_at = created_at;
            read = false;
          }
          ∷ take 99 ns)
  marked :
      {id : String} {ns ms : List NotificationRecord} → Marked id ns ms → Described (mark id) ns ms
  all_marked : {ns ms : List NotificationRecord} → AllRead ns ms → Described mark_all ns ms
  cleared : {ns : List NotificationRecord} → Described clear ns []

read_one-Marked : (id : String) (ns : List NotificationRecord) → Marked id ns (map (read_one id) ns)
read_one-Marked id [] = nothing
read_one-Marked id (n ∷ ns) = elim (Bool-cases (str_eq n.id id)) [
  | inl same ↦ rw same (named ((eq_iff n.id id).0 same) (read_one-Marked id ns))
  | inr differs ↦ rw differs (
      other (λ e. let same = (eq_iff n.id id).1 e in absurd (cc (same, differs)))
        (read_one-Marked id ns))
]

read_it-AllRead : (ns : List NotificationRecord) → AllRead ns (map read_it ns)
read_it-AllRead [] = nothing
read_it-AllRead (n ∷ ns) = next (read_it-AllRead ns)

module _ (storage : LocalStorage (List NotificationRecord)) where
  open storage use {Store}

  unfoldable pub perform : Operation → State storage → State storage
  perform (add type_ title body id created_at) s =
      (add_notification storage type_ title body id created_at s).1
  perform (mark id) s = mark_notification_read storage id s
  perform mark_all s = mark_all_notifications_read storage s
  perform clear s = clear_notifications storage s

  abbrev pub IsBounded : State storage → Type 0
  IsBounded s = length (get_notifications storage s) ≤ max_entries

  persist-get :
      (records : List NotificationRecord) (s : State storage) (t : Store)
      → storage.write s.store (take max_entries records) ≡ some t
      → get_notifications storage (persist storage records s) ≡ take max_entries records
  unfolding persist
  persist-get records s t h = rw (h, storage.read-write s.store t _ h) refl

  persist-kept :
      (records : List NotificationRecord) (s : State storage)
      → storage.write s.store (take max_entries records) ≡ none
      → get_notifications storage (persist storage records s) ≡ get_notifications storage s
  unfolding persist
  persist-kept records s h = rw h refl

  written-IsBounded :
      (records : List NotificationRecord) (s : State storage) (o : Option Store)
      → storage.write s.store (take max_entries records) ≡ o
      → IsBounded s
      → IsBounded (persist storage records s)
  written-IsBounded records s none h b =
      subst (λ ns. length ns ≤ max_entries) (sym (persist-kept records s h)) b
  written-IsBounded records s (some t) h b =
      subst (λ ns. length ns ≤ max_entries) (sym (persist-get records s t h))
        (omega (arith, length-take max_entries records))

  -- Every operation keeps the log at a hundred records or fewer, whether the storage takes the
  -- write or throws.
  pub perform-IsBounded :
      (op : Operation) (s : State storage) → IsBounded s → IsBounded (perform op s)
  unfolding perform add_notification mark_notification_read mark_all_notifications_read
      clear_notifications
  perform-IsBounded (add type_ title body id created_at) s b = written-IsBounded _ s _ refl b
  perform-IsBounded (mark id) s b = written-IsBounded _ s _ refl b
  perform-IsBounded mark_all s b = written-IsBounded _ s _ refl b
  perform-IsBounded clear s b = written-IsBounded _ s _ refl b

  available :
      (records : List NotificationRecord) (s : State storage)
      → ((ns : List NotificationRecord)
          → length ns ≤ 100
          → (t : Store) × (storage.write s.store ns ≡ some t))
      → get_notifications storage (persist storage records s) ≡ take max_entries records
  available records s h =
      let (t, e) = h (take max_entries records) (omega (arith, length-take max_entries records)) in
      persist-get records s t e

  -- When the storage takes every list of at most a hundred records, each operation on a log of at
  -- most a hundred does to it what is asked: an added record comes first, unread, and the oldest
  -- beyond a hundred are dropped; marking sets exactly the records with the id, or all of them, to
  -- read and changes nothing else; clearing empties it.
  pub perform-Described :
      (op : Operation) (s : State storage)
      → ((ns : List NotificationRecord)
          → length ns ≤ 100
          → (t : Store) × (storage.write s.store ns ≡ some t))
      → IsBounded s
      → Described op (get_notifications storage s) (get_notifications storage (perform op s))
  unfolding perform add_notification mark_notification_read mark_all_notifications_read
      clear_notifications
  perform-Described (add type_ title body id created_at) s h b =
      subst (Described (add type_ title body id created_at) (get_notifications storage s))
        (sym (available _ s h)) added
  perform-Described (mark id) s h b =
      let kept =
        take-whole max_entries (map (read_one id) (get_notifications storage s))
          (omega (arith, length-map (read_one id) (get_notifications storage s))) in
      subst (Described (mark id) (get_notifications storage s)) (sym (available _ s h ∙ kept))
        (marked (read_one-Marked id (get_notifications storage s)))
  perform-Described mark_all s h b =
      let kept =
        take-whole max_entries (map read_it (get_notifications storage s))
          (omega (arith, length-map read_it (get_notifications storage s))) in
      subst (Described mark_all (get_notifications storage s)) (sym (available _ s h ∙ kept))
        (all_marked (read_it-AllRead (get_notifications storage s)))
  perform-Described clear s h b =
      subst (Described clear (get_notifications storage s)) (sym (available _ s h)) cleared
