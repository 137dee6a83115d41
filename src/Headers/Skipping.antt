-- ===== src/Headers/Skipping.antt =====
-- `skip_complete_headers`: the headers up to the first one that is not complete, and the others.
use trinity.Prelude.{
  ℕ, suc, ◌≡◌, Bool, true, false, List, [], ◌∷◌, ◌++◌, take, drop, take-append-drop, if◌then◌else◌,
  Bool-cases, inl, inr,
}

module _ {H : Type 0} (completion_check : H → Bool) where
  -- The loop over `enumerate(headers)`, with its `else`.
  unfoldable pub first_incomplete_index : List H → ℕ
  first_incomplete_index [] = 0
  first_incomplete_index (h ∷ hs) =
      let later = suc (first_incomplete_index hs) in if completion_check h then later else 0

  unfoldable pub skip_complete_headers : List H → List H × List H
  skip_complete_headers headers =
      (take (first_incomplete_index headers) headers, drop (first_incomplete_index headers) headers)

  abbrev pub AllComplete : List H → Type 0
  AllComplete [] = Unit
  AllComplete (h ∷ hs) = (completion_check h ≡ true) × AllComplete hs

  abbrev pub FirstIncomplete : List H → Type 0
  FirstIncomplete [] = Unit
  FirstIncomplete (h ∷ hs) = completion_check h ≡ false

  taken-AllComplete : (hs : List H) → AllComplete (take (first_incomplete_index hs) hs)
  unfolding first_incomplete_index
  taken-AllComplete [] = tt
  taken-AllComplete (h ∷ hs) = elim (Bool-cases (completion_check h)) [
    | inl e ↦ rw e (e, taken-AllComplete hs)
    | inr e ↦ rw e tt
  ]

  dropped-FirstIncomplete : (hs : List H) → FirstIncomplete (drop (first_incomplete_index hs) hs)
  unfolding first_incomplete_index
  dropped-FirstIncomplete [] = tt
  dropped-FirstIncomplete (h ∷ hs) = elim (Bool-cases (completion_check h)) [
    | inl e ↦ rw e (dropped-FirstIncomplete hs)
    | inr e ↦ rw e e
  ]

  -- The two parts are the headers in their order; the first part is complete, and the second is
  -- empty or starts with a header that is not.
  pub skip_complete_headers_lem :
      (headers : List H)
      → ((skip_complete_headers headers).0 ++ (skip_complete_headers headers).1 ≡ headers)
        × AllComplete (skip_complete_headers headers).0
        × FirstIncomplete (skip_complete_headers headers).1
  unfolding skip_complete_headers
  skip_complete_headers_lem headers = (
    take-append-drop (first_incomplete_index headers) headers,
    taken-AllComplete headers,
    dropped-FirstIncomplete headers,
  )
