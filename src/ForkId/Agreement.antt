-- ===== src/ForkId/Agreement.antt =====
-- Two nodes on the same chain of forks: what one makes and the other validates.
use mathlib.Core.List.{append_assoc}
use trinity.Prelude.{
  ℕ, suc, ◌/◌, ◌%◌, ◌^◌, ◌<◌, ◌≤◌, ◌≡◌, ◌⊎◌, refl, ap, sym, ◌∙◌, subst, List, [], ◌∷◌, ◌++◌, arith,
  true, false, inl, inr, elem, Distinct, ℕ_discrete,
}
use trinity.Prelude.Exec.{Result, ok, err, local_chain_incompatible_or_stale}
use trinity.Prelude.Bytes.{Bytes, AllBelow, big_endian, crc32, crc32-lt}
use trinity.ForkId.{ForkId, make_forkid, validate_forkid, maxsize}
use trinity.ForkId.Checksum.{checksum, checksums, fork_hash, checksum-lt}
use trinity.ForkId.Making.{make_forkid_lem, IsSplit, Upcoming}
use trinity.ForkId.Search.{crc_step}
use trinity.ForkId.Validation.{
  Verdict, rule_1a, rule_1b, rule_2, rule_2_stale, rule_3, different_chains, validate_forkid_lem,
  validate_at, NotPassed,
}

-- Of two first parts of a list, one is a first part of the other.
parts_of :
    (p p' q q' : List ℕ)
    → p ++ p' ≡ q ++ q'
    → ((b : ℕ) × (r : List ℕ) × (p ≡ q ++ b ∷ r)) ⊎ ((r : List ℕ) × (q ≡ p ++ r) × (p' ≡ r ++ q'))
parts_of [] p' q q' e = inr (q, refl, e)
parts_of (x ∷ p) p' [] q' e = inl (x, p, refl)
parts_of (x ∷ p) p' (y ∷ q) q' e =
    let same : y ≡ x = cc in
    elim (parts_of p p' q q' cc) [
      | inl (b, r, z) ↦ inl (b, r, cc)
      | inr (r, z, z') ↦ inr (r, cc, z')
    ]

big_endian_inj : (c d : ℕ) → c < 2 ^ 32 → d < 2 ^ 32 → big_endian 4 c ≡ big_endian 4 d → c ≡ d
big_endian_inj c d h h' e =
    let e0 : c % 256 ≡ d % 256 = cc in
    let e1 : c / 256 % 256 ≡ d / 256 % 256 = cc in
    let e2 : c / 256 / 256 % 256 ≡ d / 256 / 256 % 256 = cc in
    let e3 : c / 256 / 256 / 256 % 256 ≡ d / 256 / 256 / 256 % 256 = cc in omega arith

elem-checksums :
    (q q' : List ℕ) (c : ℕ) → elem ℕ_discrete (checksum c q) (checksums c (q ++ q')) ≡ true
elem-checksums [] [] c = ground arith
elem-checksums [] (y ∷ q') c = ground arith
elem-checksums (y ∷ q) q' c = let inner = elem-checksums q q' (crc_step c y) in ground arith

-- A checksum that the rest of the chain does not have.
first_apart :
    (c c' : ℕ) (bs q q' : List ℕ)
    → elem ℕ_discrete c (checksums c' bs) ≡ false
    → bs ≡ q ++ q'
    → c ≡ checksum c' q
    → ⊥
first_apart c c' bs q q' out e same =
    let inside = elem-checksums q q' c' in let e' = ap (checksums c') e in cc

-- Where the checksums of a chain are different, they tell how many forks are passed.
checksum_inj :
    (p p' q q' : List ℕ) (c : ℕ)
    → Distinct ℕ_discrete (checksums c (p ++ p'))
    → p ++ p' ≡ q ++ q'
    → checksum c p ≡ checksum c q
    → p ≡ q
checksum_inj [] p' [] q' c d e same = refl
checksum_inj [] [] (y ∷ q) q' c d e same = cc
checksum_inj [] (x ∷ p') (y ∷ q) q' c d e same =
    let x_is : y ≡ x = cc in
    let tail : p' ≡ q ++ q' = cc in
    absurd (
      first_apart c (crc_step c x) p' q q' d.0 tail
        (same ∙ ap (λ z. checksum (crc_step c z) q) x_is))
checksum_inj (x ∷ p) p' [] q' c d e same =
    absurd (first_apart c (crc_step c x) (p ++ p') p p' d.0 refl (sym same))
checksum_inj (x ∷ p) p' (y ∷ q) q' c d e same =
    let x_is : y ≡ x = cc in
    let tail : p ++ p' ≡ q ++ q' = cc in
    let rest =
      checksum_inj p p' q q' (crc_step c x) d.1 tail
        (same ∙ ap (λ z. checksum (crc_step c z) q) x_is) in
    cc

split_unique :
    (head next : ℕ) (gone to_come passed : List ℕ) (b : ℕ) (rest : List ℕ)
    → gone ++ to_come ≡ passed ++ b ∷ rest
    → AllBelow (suc head) gone
    → AllBelow (suc head) passed
    → head < b
    → Upcoming head to_come next
    → (gone ≡ passed) × (next ≡ b)
split_unique head next [] [] [] b rest e g p h u = cc
split_unique head next [] (t ∷ ts) [] b rest e g p h u = let same : t ≡ b = cc in (refl, u.0 ∙ same)
split_unique head next [] [] (x ∷ xs) b rest e g p h u = cc
split_unique head next [] (t ∷ ts) (x ∷ xs) b rest e g p h u =
    let same : t ≡ x = cc in absurd (omega arith)
split_unique head next (y ∷ ys) ts [] b rest e g p h u =
    let same : y ≡ b = cc in absurd (omega arith)
split_unique head next (y ∷ ys) ts (x ∷ xs) b rest e g p h u =
    let same : y ≡ x = cc in
    let (z, z') = split_unique head next ys ts xs b rest (cc) g.1 p.1 h u in (cc, z')

-- Rule 1a and no other decides on a remote that announces a fork up to the head.
rejected :
    (remote : ForkId) (genesis : Bytes) (head : ℕ) (passed rest : List ℕ) (v : Result {0} Unit)
    → fork_hash genesis passed ≡ remote.hash
    → 0 < remote.next
    → remote.next ≤ head
    → Verdict remote genesis head passed rest v
    → v ≡ err local_chain_incompatible_or_stale
rejected remote genesis head passed rest v same p q (rule_1a x y z) = refl
rejected remote genesis head passed rest v same p q (rule_1b x (inl y)) = absurd (omega arith)
rejected remote genesis head passed rest v same p q (rule_1b x (inr y)) = absurd (omega arith)
rejected remote genesis head passed rest v same p q (rule_2 a b c ne x y z) = absurd (ne same)
rejected remote genesis head passed rest v same p q (rule_2_stale a b c ne x y z) = absurd (ne same)
rejected remote genesis head passed rest v same p q (rule_3 a b ne x y z) = absurd (ne same)
rejected remote genesis head passed rest v same p q (different_chains x y) = refl

module _ (genesis : Bytes) (bytes : AllBelow 256 genesis) where
  abbrev c : ℕ
  c = crc32 genesis 0

  fork_hash_inj :
      (p p' q q' : List ℕ)
      → Distinct ℕ_discrete (checksums c (p ++ p'))
      → p ++ p' ≡ q ++ q'
      → fork_hash genesis p ≡ fork_hash genesis q
      → p ≡ q
  fork_hash_inj p p' q q' d e same =
      let small = crc32-lt genesis 0 bytes (omega arith) in
      checksum_inj p p' q q' c d e (
        big_endian_inj (checksum c p) (checksum c q) (checksum-lt p c small) (checksum-lt q c small)
          same)

  append_inj : (p q q' : List ℕ) → p ++ q ≡ p ++ q' → q ≡ q'
  append_inj [] q q' e = e
  append_inj (x ∷ p) q q' e = append_inj p q q' cc

  elem_mid : (p : List ℕ) (b : ℕ) (q : List ℕ) → elem ℕ_discrete b (p ++ b ∷ q) ≡ true
  elem_mid [] b q = ground arith
  elem_mid (x ∷ p) b q = let inner = elem_mid p b q in ground arith

  -- The remote has passed `gone`, and the local chain `passed`.
  module _ (blocks gone to_come passed rest : List ℕ) (head remote_head next : ℕ)
      (d : Distinct ℕ_discrete (checksums c blocks))
      (s : IsSplit remote_head blocks gone to_come next) (whole : blocks ≡ passed ++ rest)
      (at : NotPassed head rest) where
    abbrev remote : ForkId
    remote = record { hash = fork_hash genesis gone; next = next }

    -- The one disagreement: the head is the very fork that the remote announces.
    abbrev AtFork : Type 0
    AtFork = (elem ℕ_discrete head blocks ≡ true) × (remote_head < head)

    same_chain : (q q' : List ℕ) → blocks ≡ q ++ q' → fork_hash genesis q ≡ remote.hash → gone ≡ q
    same_chain q q' e same =
        fork_hash_inj gone to_come q q' (subst (λ z. Distinct ℕ_discrete (checksums c z)) s.whole d)
          (sym s.whole ∙ e) (sym same)

    at_fork :
        (ts rs : List ℕ)
        → ts ≡ rs
        → rest ≡ rs
        → Upcoming remote_head ts next
        → NotPassed head rs
        → 0 < next
        → next ≤ head
        → AtFork
    at_fork [] rs e e' u n positive reached = absurd (omega arith)
    at_fork (b ∷ ts) [] e e' u n positive reached = cc
    at_fork (b ∷ ts) (b' ∷ rs) e e' u n positive reached =
        let same : b' ≡ b = cc in
        let here : head ≡ b' = omega arith in
        let all : blocks ≡ passed ++ b' ∷ rs = whole ∙ ap (passed ++◌) e' in
        let inside = elem_mid passed b' rs in (cc, omega arith)

    agree :
        (v : Result {0} Unit)
        → Verdict remote genesis head passed rest v
        → (v ≡ ok tt) ⊎ ((v ≡ err local_chain_incompatible_or_stale) × AtFork)
    agree v (rule_1a same positive reached) =
        let e = same_chain passed rest whole same in
        let e' =
          append_inj passed to_come rest (ap (λ z. z ++ to_come) (sym e) ∙ sym s.whole ∙ whole) in
        inr (refl, at_fork to_come rest e' refl s.upcoming at positive reached)
    agree v (rule_1b same fine) = inl refl
    agree v (rule_2 q b q' ne into same is_next) = inl refl
    agree v (rule_2_stale q b q' ne into same other) =
        let all : blocks ≡ q ++ (b ∷ q' ++ rest) =
          whole ∙ ap (λ z. z ++ rest) into ∙ append_assoc q (b ∷ q') rest in
        let e = same_chain q (b ∷ q' ++ rest) all same in
        let e' =
          append_inj q to_come (b ∷ q' ++ rest)
            (ap (λ z. z ++ to_come) (sym e) ∙ sym s.whole ∙ all) in
        absurd (other (announced to_come b (q' ++ rest) e' s.upcoming))
      where
        announced :
            (ts : List ℕ) (b : ℕ) (bs : List ℕ)
            → ts ≡ b ∷ bs
            → Upcoming remote_head ts next
            → next ≡ b
        announced [] b bs e u = cc
        announced (t ∷ ts) b bs e u = let same : t ≡ b = cc in u.0 ∙ same
    agree v (rule_3 q q' ne before whole' same) = inl refl
    agree v (different_chains before after) =
        elim (parts_of passed rest gone to_come (sym whole ∙ s.whole)) [
          | inl (b, r, e) ↦ absurd (before gone b r e refl)
          | inr (r, e, e') ↦ absurd (after r to_come e' (ap (fork_hash genesis) (sym e)))
        ]

  -- Two nodes that know the same fork blocks, with checksums that are all different, agree: neither
  -- function raises but where a fork block is the local head itself and the remote is before it.
  -- There `validate_forkid` rejects the remote.
  pub validate_forkid-make_forkid :
      (blocks : List ℕ) (head remote_head : ℕ)
      → AllBelow (2 ^ 64) blocks
      → head ≤ maxsize
      → Distinct ℕ_discrete (checksums c blocks)
      → (remote : ForkId) × (make_forkid genesis remote_head blocks ≡ ok remote)
        × ((validate_forkid remote genesis head blocks ≡ ok tt)
            ⊎ ((validate_forkid remote genesis head blocks ≡ err local_chain_incompatible_or_stale)
                × (elem ℕ_discrete head blocks ≡ true)
                × (remote_head < head)))
  validate_forkid-make_forkid blocks head remote_head fits h d =
      let (gone, to_come, next, s, made) = make_forkid_lem genesis remote_head blocks bytes fits in
      let remote : ForkId = record { hash = fork_hash genesis gone; next = next } in
      let (passed, rest, whole, below, at, (verdict, run, how)) =
        validate_forkid_lem remote genesis head blocks bytes fits h in
      (
        remote,
        made,
        elim (agree blocks gone to_come passed rest head remote_head next d s whole at verdict
            how) [ inl e ↦ inl (run ∙ e) | inr (e, at_head) ↦ inr (run ∙ e, at_head.0, at_head.1) ],
      )

  -- A remote that announces the fork at the local head as its next one, and has passed all forks
  -- before it, is rejected: it is the identifier that `make_forkid` makes for a node that is one
  -- block behind.
  pub reject_at_fork :
      (passed rest : List ℕ) (head : ℕ)
      → AllBelow (2 ^ 64) (passed ++ suc head ∷ rest)
      → suc head ≤ maxsize
      → AllBelow (suc head) passed
      → (remote : ForkId) × (make_forkid genesis head (passed ++ suc head ∷ rest) ≡ ok remote)
        × (validate_forkid remote genesis (suc head) (passed ++ suc head ∷ rest)
            ≡ err local_chain_incompatible_or_stale)
  reject_at_fork passed rest head fits h below =
      let blocks : List ℕ = passed ++ suc head ∷ rest in
      let (gone, to_come, next, s, made) = make_forkid_lem genesis head blocks bytes fits in
      let remote : ForkId = record { hash = fork_hash genesis gone; next = next } in
      let (e, e') =
        split_unique head next gone to_come passed (suc head) rest (sym s.whole) s.reached below
          (omega arith) s.upcoming in
      let (verdict, run, how) =
        validate_at remote genesis (suc head) passed (suc head ∷ rest) bytes fits h below
          (omega arith) in
      (
        remote,
        made,
        run
            ∙ rejected remote genesis (suc head) passed (suc head ∷ rest) verdict
                (ap (fork_hash genesis) (sym e)) (omega arith) (omega arith) how,
      )
