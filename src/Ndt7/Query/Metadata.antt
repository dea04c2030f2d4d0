-- ===== src/Ndt7/Query/Metadata.antt =====
-- Which request parameters become client metadata.
use ndt_server.Common.{
  ◌≡◌, refl, true, false, ◌⊎◌, inl, inr, List, [], ◌∷◌, ◌++◌, All, Any, append_assoc, append-nil,
  sym, ◌∙◌, subst, Bool-cases, if◌then◌else◌,
}
use ndt_server.Ndt7.Query.{Parameter, is_excluded, append_client_metadata}
use ndt_server.Ndt7.Model.{NameValue, ArchivalData}

abbrev pair : Parameter → NameValue
pair q = record { name = q.name; value = q.value }

kept : List Parameter → List NameValue
kept [] = []
kept (q ∷ qs) = if is_excluded q.name then kept qs else pair q ∷ kept qs

abbrev pub with_metadata : ArchivalData → List NameValue → ArchivalData
with_metadata d ms = record d { client_metadata = d.client_metadata ++ ms }

append-kept :
    (d : ArchivalData) (qs : List Parameter)
    → append_client_metadata d qs ≡ with_metadata d (kept qs)
unfolding append_client_metadata kept
append-kept d [] = rw (append-nil d.client_metadata)
append-kept d (q ∷ qs) = elim (Bool-cases (is_excluded q.name)) [
  | inl out ↦ rw out (append-kept d qs)
  | inr in_ ↦ rw in_ (
      append-kept (with_metadata d (pair q ∷ [])) qs
      ∙ rw (append_assoc d.client_metadata (pair q ∷ []) (kept qs)))
]

abbrev pub Records : Parameter → NameValue → Type 0
Records q m = (m.name ≡ q.name) × (m.value ≡ q.value)

-- The entry is not excluded, and holds the name and the first value of one of the parameters.
abbrev pub IsFrom : List Parameter → NameValue → Type 0
IsFrom qs m = (is_excluded m.name ≡ false) × Any (λ q. Records q m) qs

-- The parameter is excluded, or one of the entries records it.
abbrev pub IsIn : List NameValue → Parameter → Type 0
IsIn ms q = (is_excluded q.name ≡ true) ⊎ Any (Records q) ms

IsFrom-cons :
    (q : Parameter) (qs : List Parameter) (ms : List NameValue)
    → All (IsFrom qs) ms
    → All (IsFrom (q ∷ qs)) ms
IsFrom-cons q qs [] h = tt
IsFrom-cons q qs (m ∷ ms) h = ((h.0.0, inr h.0.1), IsFrom-cons q qs ms h.1)

IsIn-cons :
    (m : NameValue) (ms : List NameValue) (qs : List Parameter)
    → All (IsIn ms) qs
    → All (IsIn (m ∷ ms)) qs
IsIn-cons m ms [] h = tt
IsIn-cons m ms (q ∷ qs) (inl e, h) = (inl e, IsIn-cons m ms qs h)
IsIn-cons m ms (q ∷ qs) (inr a, h) = (inr (inr a), IsIn-cons m ms qs h)

kept-IsFrom : (qs : List Parameter) → All (IsFrom qs) (kept qs)
unfolding kept
kept-IsFrom [] = tt
kept-IsFrom (q ∷ qs) =
    let rest = IsFrom-cons q qs (kept qs) (kept-IsFrom qs) in
    elim (Bool-cases (is_excluded q.name)) [
      | inl out ↦ rw out rest
      | inr in_ ↦ rw in_ ((in_, inl (refl, refl)), rest)
    ]

kept_out :
    (q : Parameter) (qs : List Parameter) → is_excluded q.name ≡ true → kept (q ∷ qs) ≡ kept qs
unfolding kept
kept_out q qs h = rw h

kept_in :
    (q : Parameter) (qs : List Parameter)
    → is_excluded q.name ≡ false
    → kept (q ∷ qs) ≡ pair q ∷ kept qs
unfolding kept
kept_in q qs h = rw h

kept-IsIn : (qs : List Parameter) → All (IsIn (kept qs)) qs
kept-IsIn [] = tt
kept-IsIn (q ∷ qs) =
    let rest = kept-IsIn qs in
    elim (Bool-cases (is_excluded q.name)) [
      | inl out ↦ subst (λ ms. All (IsIn ms) (q ∷ qs)) (sym (kept_out q qs out)) (inl out, rest)
      | inr in_ ↦
          subst (λ ms. All (IsIn ms) (q ∷ qs)) (sym (kept_in q qs in_))
            (inr (inl (refl, refl)), IsIn-cons (pair q) (kept qs) qs rest)
    ]

-- The archival data grows by entries at the end of the client metadata and changes nowhere else:
-- no entry's name starts with `server_`, each is the first value of a parameter, and every parameter
-- whose name does not start so has its entry.
pub append_client_metadata_entries :
    (d : ArchivalData) (qs : List Parameter)
    → (ms : List NameValue) × (append_client_metadata d qs ≡ with_metadata d ms)
      × All (IsFrom qs) ms
      × All (IsIn ms) qs
append_client_metadata_entries d qs = (kept qs, append-kept d qs, kept-IsFrom qs, kept-IsIn qs)
