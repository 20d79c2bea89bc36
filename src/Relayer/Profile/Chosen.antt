-- ===== src/Relayer/Profile/Chosen.antt =====
-- Which policy manifest is chosen for a payer.
use agent_allowance.Common.{
  subst, find-none, find-listed, any-false, All-zip, Any, All, ◌⊎◌, inl, inr, Bool-cases, find,
  find-holds, any, is_text, or_else, lookup, String, Bool, true, false, ◌≡◌, refl, Option, none,
  some, List, [], ◌∷◌, next, arith, >>=-eq-next, next-injective, if◌then◌else◌, ◌>>=◌,
}
use agent_allowance.Xdr.{text}
use agent_allowance.Policy.Manifest.{Manifest}
use agent_allowance.Relayer.Reasons.{RelayReason}
use agent_allowance.Relayer.Request.{Relayer}
use agent_allowance.Relayer.Profile.{
  pays, is_pinned, resolve_hashes, find_profile, choose_profile, by_account, with_hashes,
}

module _ (relayer : Relayer) (payer : String) where
  -- The manifest is pinned by the account's code, the code was read, and it is the pinned one or another.
  abbrev pub HasCode : Manifest → List (String × String) → Bool → Type 0
  HasCode m hashes same =
      (is_pinned m ≡ true)
      × (resolve_hashes relayer m payer ≡ next hashes)
      × (pays (lookup payer hashes) (or_else m.smart_account_wasm_hash "") ≡ same)

  -- The manifest does not apply: it names another account, and where it is pinned by code alone, the
  -- payer's code is another one.
  abbrev pub IsNotFor : Manifest → Type 0
  IsNotFor m =
      (is_text m.smart_account payer ≡ false)
      × (is_pinned m ≡ true → (hashes : List (String × String)) × HasCode m hashes false)

  -- A configured manifest that is the payer's: it names the payer, or no manifest names it and this one
  -- is pinned by the payer's code. Without a choice no manifest applies.
  abbrev pub IsProfileOf :
      List Manifest → Option (Manifest × Option (List (String × String))) → Type 0
  IsProfileOf ms none = All IsNotFor ms
  IsProfileOf ms (some (m, none)) =
      Any (λ (x : Manifest). x ≡ m) ms × (is_text m.smart_account payer ≡ true)
  IsProfileOf ms (some (m, some hashes)) =
      Any (λ (x : Manifest). x ≡ m) ms
      × All (λ (x : Manifest). is_text x.smart_account payer ≡ false) ms
      × HasCode m hashes true

  some-injective : (p q : Manifest × List (String × String)) → some p ≡ some q → p ≡ q
  some-injective p q h = cc

  -- One round of the search: the manifest is passed over, chosen, or another account's.
  find_profile-step :
      (m : Manifest) (ms : List Manifest) (r : Option (Manifest × List (String × String)))
      → find_profile relayer payer (m ∷ ms) ≡ next r
      → ((is_pinned m ≡ false) × (find_profile relayer payer ms ≡ next r))
        ⊎ (((hashes : List (String × String)) × (HasCode m hashes true × (r ≡ some (m, hashes))))
            ⊎ ((hashes : List (String × String)) × (HasCode m hashes false
                  × (find_profile relayer payer ms ≡ next r))))
  unfolding find_profile
  find_profile-step m ms r h = elim (Bool-cases (is_pinned m)) [
    | inr other ↦ inl (other, grind arith)
    | inl pinned ↦
        let (hashes, h1, k1) = >>=-eq-next (resolve_hashes relayer m payer) _ (reads pinned) in
        elim (Bool-cases (pays (lookup payer hashes) (or_else m.smart_account_wasm_hash ""))) [
          | inl same ↦
              inr
                (inl (hashes, ((pinned, h1, same), next-injective {R = RelayReason} (grind arith))))
          | inr differs ↦ inr (inr (hashes, ((pinned, h1, differs), grind arith)))
        ]
  ]
    where
      reads :
          is_pinned m ≡ true
          → (resolve_hashes relayer m payer >>= λ hashes.
              if pays (lookup payer hashes) (or_else m.smart_account_wasm_hash "")
              then next (some (m, hashes))
              else find_profile relayer payer ms)
            ≡ next r
      reads pinned = ground arith

  find_profile-none :
      (ms : List Manifest)
      → find_profile relayer payer ms ≡ next none
      → All
          (λ (m : Manifest).
            is_pinned m ≡ true → (hashes : List (String × String)) × HasCode m hashes false)
          ms
  find_profile-none [] h = tt
  find_profile-none (m ∷ ms) h = elim (find_profile-step m ms none h) [
    | inl (other, k) ↦ ((λ pinned. absurd (cc)), find_profile-none ms k)
    | inr (inl (hashes, (c, e))) ↦ absurd (cc)
    | inr (inr (hashes, (c, k))) ↦ ((λ pinned. (hashes, c)), find_profile-none ms k)
  ]

  find_profile-some :
      (ms : List Manifest) (m : Manifest) (hashes : List (String × String))
      → find_profile relayer payer ms ≡ next (some (m, hashes))
      → Any (λ (x : Manifest). x ≡ m) ms × HasCode m hashes true
  unfolding find_profile
  find_profile-some [] m hashes h = absurd (cc)
  find_profile-some (x ∷ ms) m hashes h = elim (find_profile-step x ms (some (m, hashes)) h) [
    | inl (other, k) ↦ let (listed, c) = find_profile-some ms m hashes k in (inr listed, c)
    | inr (inl (found, (c, e))) ↦ (
      inl (cc),
      subst (λ (p : Manifest × List (String × String)). HasCode p.0 p.1 true)
          (some-injective (x, found) (m, hashes) (cc)) c,
    )
    | inr (inr (found, (c, k))) ↦
        let (listed, d) = find_profile-some ms m hashes k in (inr listed, d)
  ]

-- The manifest that is chosen for a payer is a configured one that is the payer's; where none is chosen,
-- none applies.
pub choose_profile_sound :
    (relayer : Relayer) (payer : String) (ms : List Manifest)
    (profile : Option (Manifest × Option (List (String × String))))
    → choose_profile relayer (text payer) ms ≡ next profile
    → IsProfileOf relayer payer ms profile
unfolding choose_profile
choose_profile_sound relayer payer ms profile h = by_find (find (by_account (text payer)) ms) refl
  where
    searched :
        find (by_account (text payer)) ms ≡ none
        → (found : Option (Manifest × List (String × String)))
        → find_profile relayer payer ms ≡ next found
        → with_hashes found ≡ profile
        → IsProfileOf relayer payer ms profile
    searched e none k same = subst (IsProfileOf relayer payer ms) same (
        All-zip _ _ (IsNotFor relayer payer) ms (λ m a b. (a, b))
          (find-none (by_account (text payer)) ms e) (find_profile-none relayer payer ms k))
    searched e (some (m, hashes)) k same =
        let (listed, c) = find_profile-some relayer payer ms m hashes k in
        subst (IsProfileOf relayer payer ms) same
          (listed, find-none (by_account (text payer)) ms e, c)

    by_find :
        (o : Option Manifest)
        → find (by_account (text payer)) ms ≡ o
        → IsProfileOf relayer payer ms profile
    by_find (some m) e =
        subst (IsProfileOf relayer payer ms)
          (next-injective {R = RelayReason} {a = some (m, none)} (ground (arith, e)))
          (
            find-listed (by_account (text payer)) ms m e,
            find-holds (by_account (text payer)) ms m e,
          )
    by_find none e = elim (Bool-cases (any is_pinned ms)) [
      | inr unpinned ↦
          subst (IsProfileOf relayer payer ms)
            (next-injective {R = RelayReason} {a = none} (ground (arith, e, unpinned)))
            (All-zip _ _ (IsNotFor relayer payer) ms (λ m a b. (a, λ k. absurd (cc)))
              (find-none (by_account (text payer)) ms e) (any-false is_pinned ms unpinned))
      | inl yes_ ↦
          let (found, k1, k2) =
            >>=-eq-next (find_profile relayer payer ms) (λ found. next (with_hashes found))
              (ground (arith, e, yes_)) in
          searched e found k1 (next-injective {R = RelayReason} k2)
    ]
