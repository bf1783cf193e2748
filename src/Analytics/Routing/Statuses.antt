-- ===== src/Analytics/Routing/Statuses.antt =====
-- When each status is returned.
use accord_protocol.Prelude.{
  ℕ, zero, suc, ◌≡◌, refl, sym, ap, ◌∙◌, ◌↔◌, ◌⊎◌, inl, inr, Bool, true, false, ◌&&◌, List, [], ◌∷◌,
  ◌++◌, arith, ◌==◌, Bool-cases, if◌then◌else◌,
}
use accord_protocol.Prelude.Text.{Text, codes, text_eq, text_eq_iff}
use accord_protocol.Analytics.Js.{Js}
use accord_protocol.Analytics.Query.{
  ApiErrorDetail, result, query_details, query_data, Params, ParsedAnalyticsQuery,
  parse_and_validate_analytics_query,
}
use accord_protocol.Analytics.Query.Accepted.{
  IsSuccess, IsAcceptable, parse_and_validate_analytics_query_iff,
}
use accord_protocol.Analytics.Endpoints.{
  AnalyticsContext, AnalyticsApiResponse, ok, failed, respond, validated,
}
use accord_protocol.Analytics.Spending.{handle_get_spend_by_category, handle_get_spend_by_owner}
use accord_protocol.Analytics.Treasury.{handle_get_stats_summary, handle_get_treasury_balance}
use accord_protocol.Analytics.Flow.{handle_get_treasury_flow}
use accord_protocol.Analytics.Routing.{
  Payload, with_payload, is_nil, strip_slashes, normalized_path, handle_analytics_route, not_found,
}

abbrev pub status {ℓ} : {A : Type ℓ} → AnalyticsApiResponse A → ℕ
status (ok a) = 200
status (failed s error) = s

abbrev slashes : ℕ → Text
slashes zero = []
slashes (suc n) = 47 ∷ slashes n

-- A path and any number of slashes after it.
abbrev pub Slashed : Text → Text → Type 0
Slashed endpoint path = (n : ℕ) × (path ≡ endpoint ++ slashes n)

strip_slashes-slashes : (n : ℕ) → strip_slashes (slashes n) ≡ []
unfolding strip_slashes
strip_slashes-slashes zero = refl
strip_slashes-slashes (suc n) = rw (strip_slashes-slashes n)

strip_slashes-append : (e : Text) (n : ℕ) → strip_slashes (e ++ slashes n) ≡ strip_slashes e
unfolding strip_slashes
strip_slashes-append [] n = strip_slashes-slashes n
strip_slashes-append (c ∷ e) n = rw (strip_slashes-append e n)

is_nil→nil : (s : Text) → is_nil s ≡ true → s ≡ []
is_nil→nil [] h = refl
is_nil→nil (c ∷ s) h = absurd (cc)

cut_slash :
    (c : ℕ) (s : Text) (n : ℕ)
    → (c == 47 && is_nil (strip_slashes s)) ≡ true
    → s ≡ strip_slashes s ++ slashes n
    → c ∷ s ≡ 47 ∷ slashes n
cut_slash c s n h e =
    let empty : strip_slashes s ≡ [] = is_nil→nil (strip_slashes s) (ground arith) in
    let slash : c ≡ 47 = ground arith in ground (arith, e, empty, slash)

strip_slashes-Slashed : (s : Text) → Slashed (strip_slashes s) s
unfolding strip_slashes
strip_slashes-Slashed [] = (0, refl)
strip_slashes-Slashed (c ∷ s) =
    let (n, e) = strip_slashes-Slashed s in
    elim (Bool-cases (c == 47 && is_nil (strip_slashes s))) [
      | inl cut ↦ rw cut (suc n, cut_slash c s n cut e)
      | inr kept ↦ rw kept (n, ap (λ (t : Text). c ∷ t) e)
    ]

abbrev pub IsEndpoint : Text → Type 0
IsEndpoint path =
    Slashed (codes "/stats/summary") path
    ⊎ (Slashed (codes "/spend/by-category") path
        ⊎ (Slashed (codes "/spend/by-owner") path
            ⊎ (Slashed (codes "/treasury/balance") path
                ⊎ (Slashed (codes "/treasury/flow") path ⊎ ⊥))))

-- An endpoint's path, which is not empty and does not end with a slash, is found exactly with slashes after it.
root_only : (c : ℕ) (e : Text) → strip_slashes (c ∷ e) ≡ c ∷ e → codes "/" ≡ c ∷ e → ⊥
unfolding strip_slashes
root_only c e h k =
    let same : strip_slashes (codes "/") ≡ codes "/" = ap strip_slashes k ∙ h ∙ sym k in cc (same)

found :
    (c : ℕ) (e : Text) (path : Text)
    → strip_slashes (c ∷ e) ≡ (c ∷ e)
    → normalized_path path ≡ c ∷ e
    → Slashed (c ∷ e) path
unfolding normalized_path
found c e path h k = elim (Bool-cases (is_nil (strip_slashes path))) [
  | inl empty ↦ absurd (root_only c e h (rw empty at k))
  | inr there ↦
      let (n, l) = strip_slashes-Slashed path in
      (n, l ∙ ap (λ (t : Text). t ++ slashes n) (rw there at k))
]

finds :
    (c : ℕ) (e : Text) (path : Text)
    → strip_slashes (c ∷ e) ≡ (c ∷ e)
    → Slashed (c ∷ e) path
    → normalized_path path ≡ c ∷ e
unfolding normalized_path
finds c e path h (n, k) = rw k (rw (strip_slashes-append (c ∷ e) n ∙ h))

normalized_path_iff :
    (c : ℕ) (e : Text) (path : Text)
    → strip_slashes (c ∷ e) ≡ (c ∷ e)
    → (text_eq (normalized_path path) (c ∷ e) ≡ true) ↔ Slashed (c ∷ e) path
unfolding normalized_path
normalized_path_iff c e path h =
    ((λ k. found c e path h ((text_eq_iff _ _).0 k)), λ k. (text_eq_iff _ _).1 (finds c e path h k))

rest_of : {P Q : Type 0} → ((false ≡ true) ↔ P) → P ⊎ Q → Q
rest_of p (inl h) = absurd (cc (p.1 h))
rest_of p (inr h) = h

-- The status is 200 if a test holds and one thing does, or if the rest of the tests come to it.
either_iff {ℓ} :
    {R : Type ℓ} (b : Bool) (x y : AnalyticsApiResponse R) (P Q A : Type 0)
    → ((b ≡ true) ↔ P)
    → ((status x ≡ 200) ↔ A)
    → ((status y ≡ 200) ↔ (Q × A))
    → (status (if b then x else y) ≡ 200) ↔ ((P ⊎ Q) × A)
either_iff true x y P Q A p a q = ((λ h. (inl (p.0 refl), a.0 h)), λ h. a.1 h.1)
either_iff false x y P Q A p a q =
    ((λ h. let (k, l) = q.0 h in (inr k, l)), λ h. q.1 (rest_of p h.0, h.1))

result_iff {ℓ κ} :
    {Amount : Type 0} (js : Js Amount) (ds : List ApiErrorDetail) (q : ParsedAnalyticsQuery)
    {A : Type ℓ} {B : Type κ} (f : ParsedAnalyticsQuery → A) (g : A → B)
    → (status (with_payload g (respond (result js ds q) f)) ≡ 200) ↔ IsSuccess (result js ds q)
result_iff js [] q f g = ((λ h. tt), λ h. refl)
result_iff js (d ∷ ds) q f g = ((λ h. absurd (omega arith)), λ h. absurd h)

validated_iff {ℓ κ} :
    {Amount : Type 0} (js : Js Amount) (params : Params) {A : Type ℓ} {B : Type κ}
    (f : ParsedAnalyticsQuery → A) (g : A → B)
    → (status (with_payload g (validated js params f)) ≡ 200) ↔ IsAcceptable js params
unfolding parse_and_validate_analytics_query
validated_iff js params f g =
    let r = result_iff js (query_details js params) (query_data js params) f g in
    let a = parse_and_validate_analytics_query_iff js params in
    ((λ h. a.0 (r.0 h)), λ h. r.1 (a.1 h))

not_found_iff {ℓ} :
    {R : Type ℓ} {A : Type 0} (r : AnalyticsApiResponse R)
    → status r ≡ 404
    → (status r ≡ 200) ↔ (⊥ × A)
not_found_iff r k = ((λ h. absurd (omega arith)), λ h. absurd h.0)

with_method :
    {X E A : Type 0} (m g : Text) → text_eq m g ≡ true → X ↔ (E × A) → X ↔ ((m ≡ g) × E × A)
with_method m g same k =
    ((λ h. let (e, a) = k.0 h in ((text_eq_iff m g).0 same, e, a)), λ h. k.1 (h.1, h.2))

-- The response is 200 exactly when the method is GET in any case, the path is one of the five
-- endpoints with any number of slashes after it, and the query is acceptable.
pub handle_analytics_route-ok_iff :
    {Amount : Type 0} (js : Js Amount) (method path : Text) (params : Params)
    (context : AnalyticsContext)
    → (status (handle_analytics_route js method path params context) ≡ 200)
      ↔ ((js.to_upper method ≡ codes "GET") × IsEndpoint path × IsAcceptable js params)
unfolding handle_analytics_route strip_slashes handle_get_spend_by_category
    handle_get_spend_by_owner handle_get_stats_summary handle_get_treasury_balance
    handle_get_treasury_flow
handle_analytics_route-ok_iff {Amount} js method path params context =
    elim (Bool-cases (text_eq (js.to_upper method) (codes "GET"))) [
      | inl same ↦ rw same (
          with_method (js.to_upper method) (codes "GET") same (
            either_iff _ _ _ _ _ (IsAcceptable js params) (normalized_path_iff 47 _ path refl)
              (validated_iff js params _ _)
              (either_iff _ _ _ _ _ (IsAcceptable js params) (normalized_path_iff 47 _ path refl)
                (validated_iff js params _ _)
                (either_iff _ _ _ _ _ (IsAcceptable js params) (normalized_path_iff 47 _ path refl)
                  (validated_iff js params _ _)
                  (either_iff _ _ _ _ _ (IsAcceptable js params)
                    (normalized_path_iff 47 _ path refl) (validated_iff js params _ _)
                    (either_iff _ _ _ _ _ (IsAcceptable js params)
                      (normalized_path_iff 47 _ path refl) (validated_iff js params _ _)
                      (not_found_iff (not_found {B = Payload Amount} path) refl)))))))
      | inr differs ↦ rw differs (
        (λ h. absurd (omega arith)),
        λ h. absurd (cc ((text_eq_iff (js.to_upper method) (codes "GET")).1 h.0)),
      )
    ]
