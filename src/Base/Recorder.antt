-- ===== src/Base/Recorder.antt =====
-- In-memory audit recorders: the entries of each tenant, to which a hash chain goes on.
use prompt_pack.Base.{
  String, ◌≡◌, sym, ap, subst, ◌∙◌, ◌≢◌, inl, inr, Option, none, some, List, [], ◌∷◌, ◌++◌, arith,
  ◌==◌, eq_iff,
}
use prompt_pack.Base.Tests.{Bool-cases, Option-cases, if◌then◌else◌, if_true, if_false}
use prompt_pack.Base.Lists.{get_last?}
use prompt_pack.Base.Dict.{Dict, find, put, find-put, find-put_self, find-put_ne}
use prompt_pack.Base.Chain.{Chained, Chained-append, end_hash, end_hash-last, end_hash-empty}

module _ {E : Type 0} where
  -- `m[tenantID]`, which is empty for a tenant that has no entry.
  abbrev pub entries_of : Dict (List E) → String → List E
  entries_of m tenant_id = elim (find m tenant_id) [ none ↦ [] | some entries ↦ entries ]

module _ {E : Type 0} (hash_of : E → String) where
  -- The hash of the last entry, or that of the zero entry.
  abbrev pub last_hash : Option E → String
  last_hash none = ""
  last_hash (some e) = hash_of e

module _ {E : Type 0} (hash_of prev_of : E → String) (compute : E → String) where
  last_hash-end :
      (es : List E) → last_hash hash_of (get_last? es) ≡ end_hash hash_of prev_of compute "" es
  last_hash-end es = elim (Option-cases (get_last? es)) [
    | inl gone ↦
        ap (last_hash hash_of) gone ∙ sym (end_hash-empty hash_of prev_of compute "" es gone)
    | inr (x, at) ↦
        ap (last_hash hash_of) at ∙ sym (end_hash-last hash_of prev_of compute "" es x at)
  ]

  -- An entry that names the last hash of its tenant, if that is the tenant looked at, is added at the end of that tenant's chain, and
  -- the other tenants' chains stay.
  pub Chained-put :
      (m : Dict (List E)) (owner : String) (e : E) (t : String)
      → (owner ≡ t → prev_of e ≡ last_hash hash_of (get_last? (entries_of m owner)))
      → hash_of e ≡ compute e
      → Chained hash_of prev_of compute "" (entries_of m t)
      → let m' = put m owner (entries_of m owner ++ e ∷ []) in
        Chained hash_of prev_of compute "" (entries_of m' t)
        × (entries_of m' t ≡ (if owner == t then entries_of m t ++ e ∷ [] else entries_of m t))
  Chained-put m owner e t linked hashed chain = elim (Bool-cases (owner == t)) [
    | inl same ↦ (
      subst (Chained hash_of prev_of compute "") (sym (after ∙ if_true _ _ same)) (
          Chained-append hash_of prev_of compute "" (entries_of m t) e chain
            (linked ((eq_iff owner t).0 same)
              ∙ last_hash-end (entries_of m owner)
              ∙ ap (λ (x : String). end_hash hash_of prev_of compute "" (entries_of m x))
                  ((eq_iff owner t).0 same))
            hashed),
      after,
    )
    | inr other ↦
        (subst (Chained hash_of prev_of compute "") (sym (after ∙ if_false _ _ other)) chain, after)
  ]
    where
      after :
          entries_of (put m owner (entries_of m owner ++ e ∷ [])) t
          ≡ (if owner == t then entries_of m t ++ e ∷ [] else entries_of m t)
      after = ground (arith, eq_iff owner t, find-put m owner t (entries_of m owner ++ e ∷ []))

module _ {E : Type 0} where
  -- One more entry at the end of a tenant's log; the other tenants' logs are as they were.
  abbrev pub OneMore : Dict (List E) → Dict (List E) → String → E → Type 0
  OneMore m m' owner e =
      (entries_of m' owner ≡ entries_of m owner ++ e ∷ [])
      × ((t : String) → owner ≢ t → entries_of m' t ≡ entries_of m t)

  -- A recorder that is there gets one entry, which is as told; one that is not there stays away.
  abbrev pub Recorded :
      (E → Type 0) → String → Option (Dict (List E)) → Option (Dict (List E)) → Type 0
  Recorded told owner none after = after ≡ none
  Recorded told owner (some m) after =
      (m' : Dict (List E)) × (e : E) × (after ≡ some m') × told e × OneMore m m' owner e

  pub put-OneMore :
      (m : Dict (List E)) (owner : String) (e : E)
      → OneMore m (put m owner (entries_of m owner ++ e ∷ [])) owner e
  put-OneMore m owner e = (
    ground (arith, find-put_self m owner (entries_of m owner ++ e ∷ [])),
    λ t ne. ground (arith, find-put_ne m owner t (entries_of m owner ++ e ∷ []) ne),
  )
