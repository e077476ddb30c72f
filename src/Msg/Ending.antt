-- ===== src/Msg/Ending.antt =====
-- The loop of `msg_parse_all` ends where no AVP has length 0.
use zdia.Prelude.{
  ℕ, zero, suc, ◌+◌, ◌*◌, ◌^◌, ◌≤◌, ◌<◌, ◌≡◌, ◌⊎◌, inl, inr, refl, subst, Run, exited, fault,
  out_of_fuel, Option, none, some, List, arith, lt→ltb, ge→ltb, drop, ok, ◌>>=◌, add32, mul32,
  non_null, Ends, Ends-bind, Ends-bind_or, Yields, Yields-bind, Yields-ok, Yields-Ends, dec_lt,
}
use zdia.Bytes.{Bytes}
use zdia.Host.{Host}
use zdia.Dict.Types.{Dict, DictAvp}
use zdia.Dict.{get_avp}
use zdia.Avp
use zdia.Avp.{Avp}
use zdia.Avp.Total.{new_from-Yields, decode-Ends}
use zdia.Msg.{avp_words, keep_avp, parse_avp, parse_loop}

module _ (h : Host) where
  keep_avp-Ends :
      (d : Dict) (avps : List Avp) (a : Avp) (o : Option DictAvp) → Ends (keep_avp h d avps a o)
  unfolding keep_avp
  keep_avp-Ends d avps a none = tt
  keep_avp-Ends d avps a (some da) =
      Ends-bind (Avp.decode h d (record a { dict_avp = some da })) _ (decode-Ends h d _) (λ r _. tt)

  module _ (dict : Option Dict) (raw : Bytes) where
    -- An AVP of length 0 stands at a word of the message, from `pos` on.
    abbrev pub HasZeroLength : ℕ → ℕ → Type 0
    HasZeroLength msg_len pos =
        (at : ℕ) × (pos ≤ at)
        × (4 * at < msg_len)
        × (a : Avp) × (Avp.new_from h (some (drop (4 * at) raw)) ≡ ok a)
        × (a.len ≡ 0)

    Moves : ℕ → ℕ × List Avp → Type 0
    Moves pos r = (pos < r.0) × (r.0 < 2 ^ 23)

    -- A round that reads an AVP of some length goes on behind it.
    round-Yields :
        (msg_len pos : ℕ) (avps : List Avp) (a : Avp)
        → Avp.new_from h (some (drop (4 * pos) raw)) ≡ ok a
        → 0 < a.len
        → 4 * pos < msg_len
        → msg_len < 2 ^ 24
        → Yields (Moves pos) (parse_avp h dict (some raw) pos avps)
    unfolding parse_avp Moves
    round-Yields msg_len pos avps a e long inside small = rw e (found dict)
      where
        found :
            (o : Option Dict)
            → Yields
                (λ (r : ℕ × List Avp). (pos < r.0) × (r.0 < 2 ^ 23))
                (non_null o >>= λ d. keep_avp h d avps a (get_avp d a.code a.vendor_id) >>= λ out.
                  ok (add32 pos (avp_words a.len), out))
        found none = tt
        found (some d) =
            Yields-bind _ (keep_avp h d avps a (get_avp d a.code a.vendor_id)) _
              (keep_avp-Ends d avps a (get_avp d a.code a.vendor_id))
              λ out _.
                let short = Yields-ok _ _ a (new_from-Yields h (drop (4 * pos) raw)) e in
                omega arith

    round :
        (msg_len pos : ℕ) (avps : List Avp)
        → 4 * pos < msg_len
        → msg_len < 2 ^ 24
        → Yields (Moves pos) (parse_avp h dict (some raw) pos avps) ⊎ HasZeroLength msg_len pos
    unfolding parse_avp
    round msg_len pos avps inside small =
        by_header (Avp.new_from h (some (drop (4 * pos) raw))) refl
      where
        by_header :
            (o : Run Avp)
            → Avp.new_from h (some (drop (4 * pos) raw)) ≡ o
            → Yields (Moves pos) (parse_avp h dict (some raw) pos avps) ⊎ HasZeroLength msg_len pos
        by_header (ok a) e = elim (dec_lt 0 a.len) [
          | yes long ↦ inl (round-Yields msg_len pos avps a e long inside small)
          | no zero_long ↦ inr (pos, omega arith, inside, a, e, omega arith)
        ]
        by_header fault e = inl (rw e tt)
        by_header exited e = inl (rw e tt)
        by_header out_of_fuel e =
            absurd (subst (Yields _) e (new_from-Yields h (drop (4 * pos) raw)))

    later :
        {A : Type 0} (pos next msg_len : ℕ)
        → pos ≤ next
        → A ⊎ HasZeroLength msg_len next
        → A ⊎ HasZeroLength msg_len pos
    later pos next msg_len further (inl e) = inl e
    later pos next msg_len further (inr (at, after, inside, a, e, z)) =
        inr (at, omega arith, inside, a, e, z)

    -- For a message below 2^24 bytes, with a round for each word from the position on, and one
    -- for the test that ends it, the loop of `msg_parse_all` ends (with a value, a fault or an
    -- exit), or an AVP of length 0 stands at a word from the position on.
    pub loop-Ends :
        (fuel msg_len pos : ℕ) (avps : List Avp)
        → msg_len < 2 ^ 24
        → pos < 2 ^ 23
        → msg_len ≤ 4 * (pos + fuel)
        → Ends (parse_loop h (suc fuel) dict (some raw) msg_len pos avps)
          ⊎ HasZeroLength msg_len pos
    unfolding parse_loop Moves
    loop-Ends zero msg_len pos avps small p enough =
        inl (rw (ge→ltb (mul32 pos 4) msg_len (omega arith)) tt)
    loop-Ends (suc fuel) msg_len pos avps small p enough = elim (dec_lt (4 * pos) msg_len) [
      | no outside ↦ inl (rw (ge→ltb (mul32 pos 4) msg_len (omega arith)) tt)
      | yes inside ↦ elim (round msg_len pos avps inside small) [
        | inr z ↦ inr z
        | inl yields ↦ rw (lt→ltb (mul32 pos 4) msg_len (omega arith)) (
            Ends-bind_or (parse_avp h dict (some raw) pos avps) _ (Yields-Ends _ _ yields) λ r e.
              let (further, p') = Yields-ok _ _ r yields e in
              later pos r.0 msg_len (omega arith)
                (loop-Ends fuel msg_len r.0 r.1 small p' (omega arith)))
      ]
    ]
