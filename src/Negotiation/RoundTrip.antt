-- ===== src/Negotiation/RoundTrip.antt =====
-- A command that is sent over a connection is received as the same command of the same protocol.
use trinity.Prelude.{
  ℕ, zero, suc, ◌+◌, ◌≤◌, ◌≡◌, ◌∙◌, refl, sym, ap, subst, Bool, true, false, some, List, [], ◌∷◌,
  elem, get_elem?, inl, inr, arith, ltb, ℕ_discrete, Bool-cases, Option-cases, some_inj,
  some-ne-none,
}
use trinity.Prelude.Dict
use trinity.Prelude.Dict.{Dict}
use trinity.Prelude.Exec.{Result, ok}
use trinity.Prelude.Fallible.{pure, Result-cases, ok_inj, err-ne-ok, ◌>>=◌}
use trinity.Negotiation.Protocols.{
  Command, Command-discrete, protocol_command_id, ProtocolType, p2p_protocol_command_length,
  base_p2p_protocol,
}
use trinity.Negotiation.Instances.{
  Protocol, new_protocol, get_cmd_offsets, instances, get_command_type_for_command_id,
  command_id_of,
}
use trinity.Negotiation.Numbers.{IsNumbered, number_below, command_id_of_lem, type_for_id, get-nil}
use trinity.Negotiation.Routing.{look_up, fill_cache, route, route_all}
use trinity.Negotiation.Layout.{laid_out, instances_lem, Instance-at, find_in_range, base_at}

abbrev pub AllIsNumbered : List ProtocolType → Type 0
AllIsNumbered [] = Unit
AllIsNumbered (cls ∷ classes) = IsNumbered cls × AllIsNumbered classes

class_IsNumbered :
    (classes : List ProtocolType) (i : ℕ) (cls : ProtocolType)
    → AllIsNumbered classes
    → get_elem? classes i ≡ some cls
    → IsNumbered cls
class_IsNumbered [] i cls a h = absurd (ground arith)
class_IsNumbered (c ∷ cs) zero cls a h = let e : c ≡ cls = some_inj refl h in subst IsNumbered e a.0
class_IsNumbered (c ∷ cs) (suc i) cls a h = class_IsNumbered cs i cls a.1 h

-- What `command_id_of` returns is the number of a command of the protocol.
id_inversion :
    (cls : ProtocolType) (offset : ℕ) (snappy : Bool) (c : Command) (n : ℕ)
    → command_id_of (new_protocol cls offset snappy) c ≡ ok n
    → (elem Command-discrete c cls.commands ≡ true) × (n ≡ offset + protocol_command_id c)
id_inversion cls offset snappy c n h =
    let e = sym (command_id_of_lem cls offset snappy c) ∙ h in
    elim (Bool-cases (elem Command-discrete c cls.commands)) [
      | inl p ↦ (p, ok_inj (sym (rw p at e)))
      | inr p ↦ absurd (err-ne-ok (rw p at e))
    ]

-- The numbers of the commands that a peer sends, each over one of its protocols.
unfoldable pub send_all : List (Protocol × Command) → Result (List ℕ)
unfolding command_id_of
send_all [] = pure []
send_all ((p, c) ∷ sent) = do
  command_id ← command_id_of p c
  rest ← send_all sent
  pure (command_id ∷ rest)

send_inversion :
    (p : Protocol) (c : Command) (sent : List (Protocol × Command)) (ids : List ℕ)
    → send_all ((p, c) ∷ sent) ≡ ok ids
    → (n : ℕ) × (rest : List ℕ) × (command_id_of p c ≡ ok n)
      × (send_all sent ≡ ok rest)
      × (ids ≡ n ∷ rest)
unfolding send_all
send_inversion p c sent ids h = elim (Result-cases (command_id_of p c)) [
  | inl (n, e) ↦ elim (Result-cases (send_all sent)) [
    | inl (rest, r) ↦ (n, rest, e, r, ok_inj (sym h ∙ rw (e, r) refl))
    | inr (x, r) ↦ absurd (err-ne-ok (rw (e, r) at h))
  ]
  | inr (x, e) ↦ absurd (err-ne-ok (rw e at h))
]

abbrev pub AllOf : List Protocol → List (Protocol × Command) → Type 0
AllOf protocols [] = Unit
AllOf protocols ((p, c) ∷ sent) =
    ((i : ℕ) × (get_elem? protocols i ≡ some p)) × AllOf protocols sent

module _ (version : ℕ) (base_snappy snappy : Bool) (classes : List ProtocolType)
    (numbered : AllIsNumbered classes) where
  abbrev base : Protocol
  base = base_at version base_snappy

  abbrev subs : List Protocol
  subs = laid_out snappy p2p_protocol_command_length classes

  base-IsNumbered : IsNumbered (base_p2p_protocol version)
  unfolding protocol_command_id ℕ_discrete
  base-IsNumbered = (omega arith, (refl, (refl, (refl, (refl, tt)))))

  -- The lookup of the number of a command ends at its protocol.
  look_up_id :
      (i : ℕ) (p : Protocol) (c : Command) (n : ℕ)
      → get_elem? (base ∷ subs) i ≡ some p
      → command_id_of p c ≡ ok n
      → (look_up base subs n ≡ ok p) × (get_command_type_for_command_id p n ≡ ok c)
  unfolding look_up new_protocol
  look_up_id zero p c n h k =
      let new : base ≡ p = some_inj refl h in
      let (member, e) =
        id_inversion (base_p2p_protocol version) 0 base_snappy c n
          (ap (λ q. command_id_of q c) new ∙ k) in
      let below = number_below 16 c (base_p2p_protocol version).commands base-IsNumbered.0 member in
      let low : ltb n 16 ≡ true = ground arith in
      let own = type_for_id (base_p2p_protocol version) 0 base_snappy base-IsNumbered c member in
      (
        rw low (ap ok new),
        ap (λ q. get_command_type_for_command_id q n) (sym new)
            ∙ ap (get_command_type_for_command_id base) e
            ∙ own,
      )
  look_up_id (suc i) p c n h k =
      let r = Instance-at snappy p2p_protocol_command_length classes i p h in
      let new : p ≡ new_protocol r.cls r.own_offset snappy = r.is_new in
      let after : 16 ≤ r.own_offset = r.is_after in
      let (member, e) =
        id_inversion r.cls r.own_offset snappy c n (ap (λ q. command_id_of q c) (sym new) ∙ k) in
      let numbered' = class_IsNumbered classes i r.cls numbered r.is_class in
      let below = number_below r.cls.command_length c r.cls.commands numbered'.0 member in
      let starts : p.command_id_offset ≡ r.own_offset = ap (λ q. q.command_id_offset) new in
      let ends : p.protocol_type.command_length ≡ r.cls.command_length =
        ap (λ q. q.protocol_type.command_length) new in
      let high : ltb n 16 ≡ false = ground arith in
      let found =
        find_in_range snappy p2p_protocol_command_length classes i p n h (omega arith)
          (omega arith) in
      (
        rw high found,
        ap (λ q. get_command_type_for_command_id q n) new
            ∙ ap (get_command_type_for_command_id (new_protocol r.cls r.own_offset snappy)) e
            ∙ type_for_id r.cls r.own_offset snappy numbered' c member,
      )

  -- The cache holds what the lookup finds.
  IsCache : Dict ℕ Protocol → Type 0
  IsCache cache =
      (n : ℕ) (p : Protocol) → Dict.get ℕ_discrete cache n ≡ some p → look_up base subs n ≡ ok p

  empty-IsCache : IsCache []
  unfolding IsCache
  empty-IsCache n p h = absurd (some-ne-none h (get-nil ℕ_discrete n))

  IsCache-put :
      (cache : Dict ℕ Protocol) (n : ℕ) (p : Protocol)
      → IsCache cache
      → look_up base subs n ≡ ok p
      → IsCache (Dict.put ℕ_discrete cache n p)
  unfolding IsCache
  IsCache-put cache n p v h m q k = elim (ℕ_discrete m n) [
    | yes e ↦
        let same : p ≡ q = some_inj (Dict.get-put_self ℕ_discrete cache n m p e) k in
        ap (look_up base subs) e ∙ h ∙ ap ok same
    | no e ↦ v m q (sym (Dict.get-put_ne ℕ_discrete cache n m p e) ∙ k)
  ]

  route_id :
      (i : ℕ) (p : Protocol) (c : Command) (n : ℕ) (cache : Dict ℕ Protocol)
      → IsCache cache
      → get_elem? (base ∷ subs) i ≡ some p
      → command_id_of p c ≡ ok n
      → (after : Dict ℕ Protocol) × (route base subs n cache ≡ (ok (p, c), after)) × IsCache after
  unfolding route fill_cache IsCache
  route_id i p c n cache v h k =
      let (found, typed) = look_up_id i p c n h k in
      elim (Option-cases (Dict.get ℕ_discrete cache n)) [
        | inl e ↦
            let filled = Dict.put ℕ_discrete cache n p in
            (
              filled,
              rw
                  (
                    Dict.has-none ℕ_discrete cache n e,
                    found,
                    Dict.get-put_self ℕ_discrete cache n n p refl,
                    typed,
                  )
                  refl,
              IsCache-put cache n p v found,
            )
        | inr (q, e) ↦
            let same : q ≡ p = ok_inj (sym (v n q e) ∙ found) in
            let e' : Dict.get ℕ_discrete cache n ≡ some p = e ∙ ap some same in
            (cache, rw (Dict.has-some ℕ_discrete cache n p e', e', typed) refl, v)
      ]

  route_all_ids :
      (sent : List (Protocol × Command)) (ids : List ℕ) (cache : Dict ℕ Protocol)
      → IsCache cache
      → AllOf (base ∷ subs) sent
      → send_all sent ≡ ok ids
      → (route_all base subs ids cache).0 ≡ ok sent
  unfolding send_all route_all
  route_all_ids [] ids cache v a h = rw (sym (ok_inj h)) refl
  route_all_ids ((p, c) ∷ sent) ids cache v a h =
      let (n, rest, e, r, list) = send_inversion p c sent ids h in
      let (after, first, v') = route_id a.0.0 p c n cache v a.0.1 e in
      let others = route_all_ids sent rest after v' a.1 r in
      rw (list, first) (ground (arith, others))

-- What a peer sends over the base protocol and the sub-protocols of a connection, the other one
-- receives: the numbers of any sequence of commands, with the cache that fills on the way, lead back
-- to the same protocols and commands.
pub route_all-send_all :
    (version : ℕ) (base_snappy snappy : Bool) (classes : List ProtocolType)
    (sent : List (Protocol × Command)) (ids : List ℕ)
    → AllIsNumbered classes
    → AllOf
        (new_protocol (base_p2p_protocol version) 0 base_snappy
          ∷ instances snappy classes (get_cmd_offsets classes))
        sent
    → send_all sent ≡ ok ids
    → (route_all
        (new_protocol (base_p2p_protocol version) 0 base_snappy)
        (instances snappy classes (get_cmd_offsets classes))
        ids
        []).0
      ≡ ok sent
route_all-send_all version base_snappy snappy classes sent ids numbered =
    rw (instances_lem snappy classes) (λ a h.
      route_all_ids version base_snappy snappy classes numbered sent ids []
        (empty-IsCache version base_snappy snappy classes numbered) a h)
