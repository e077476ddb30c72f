-- ===== src/Listing/Rules.antt =====
-- test.c: the loops over the rules of the commands, and the rules that `dict_build` binds.
use zdia.Prelude.{
  Both-All, ℕ, zero, suc, ◌<◌, ◌≡◌, inl, inr, refl, sym, ap, subst, ◌∙◌, Option, none, some, List,
  [], ◌∷◌, ok, fault, get_elem?, get_elem?-some, length, All, Both, arith,
}
use zdia.Dict.Text.Search.{absent, at}
use zdia.Dict.Build.{bind_found}
use zdia.Dict.Build.Rules.{BoundTo, kept, looked_up}
use zdia.Dict.Build.Steps.{CmdBuilt}
use zdia.Dict.Types.{Cmd, DictAvp, AvpRule}
use zdia.Listing.{Line, rule_line, rule_lines, cmd_lines, lines_of}
use zdia.Listing.Decides.{Decides, Decides-bind, Decides-then, lines_of-Decides}

-- There is an AVP with the rule's name.
abbrev pub Resolves : List DictAvp → AvpRule → Type 0
Resolves avps rule =
    (j : ℕ) × (avp : DictAvp) × (get_elem? avps j ≡ some avp) × (avp.name ≡ rule.avp_name)

abbrev pub CmdResolves : List DictAvp → Cmd → Type 0
CmdResolves avps cmd = All (Resolves avps) cmd.req_rules × All (Resolves avps) cmd.ans_rules

-- As the rules are read from the file.
abbrev pub Unbound : AvpRule → Type 0
Unbound rule = rule.avp ≡ none

abbrev pub CmdUnbound : Cmd → Type 0
CmdUnbound cmd = All Unbound cmd.req_rules × All Unbound cmd.ans_rules

pub none-some : {A : Type 0} {x : A} → ◌≡◌ {A = Option A} none (some x) → ⊥
none-some e = cc

get_elem?-lt : {A : Type 0} (xs : List A) (i : ℕ) (x : A) → get_elem? xs i ≡ some x → i < length xs
get_elem?-lt [] i x e = absurd (none-some e)
get_elem?-lt (y ∷ xs) zero x e = omega arith
get_elem?-lt (y ∷ xs) (suc i) x e = omega (arith, get_elem?-lt xs i x e)

module _ (avps now : List DictAvp) (same_length : length now ≡ length avps) where
  abbrev line : AvpRule → DictAvp → Line
  line r a = rule_line r.avp_name r.min r.max a.code a.vendor_id

  rule_lines-Decides :
      (r out : AvpRule)
      → Unbound r × BoundTo avps r out
      → Decides (Resolves avps r) (rule_lines now out)
  unfolding rule_lines bind_found
  rule_lines-Decides r out (free, kept slot e eo) = absurd (none-some (sym free ∙ e))
  rule_lines-Decides r out (free, looked_up key found e n (absent h fe) eo) = inr (
    λ res. h res.0 res.1 res.2 (res.3 ∙ n),
    subst (λ o. rule_lines now o ≡ fault) (sym (eo ∙ ap (bind_found r) fe)) (rw e refl),
  )
  rule_lines-Decides r out (free, looked_up key found e n (at j x g nm least fe) eo) =
      let slot : found ≡ some j = fe ∙ ap some (omega arith) in
      let (a, ga) = get_elem?-some now j (omega (arith, same_length, get_elem?-lt avps j x g)) in
      inl (
        (j, x, g, nm ∙ sym n),
        line r a ∷ [],
        subst (λ o. rule_lines now o ≡ ok (line r a ∷ [])) (sym (eo ∙ ap (bind_found r) slot))
            (rw ga refl),
      )

  rules-Decides :
      (rs outs : List AvpRule)
      → All Unbound rs
      → Both (BoundTo avps) rs outs
      → Decides (All (Resolves avps) rs) (lines_of (rule_lines now) outs)
  rules-Decides rs outs free both =
      lines_of-Decides (Resolves avps) (λ r out. Unbound r × BoundTo avps r out) (rule_lines now)
        rule_lines-Decides rs outs (Both-All Unbound (BoundTo avps) rs outs free both)

  cmd_lines-Decides :
      (c out : Cmd)
      → CmdUnbound c × CmdBuilt avps c out
      → Decides (CmdResolves avps c) (cmd_lines now out)
  unfolding cmd_lines
  cmd_lines-Decides c out ((free, free'), built) =
      Decides-bind _ _ (lines_of (rule_lines now) out.req_rules) _
        (rules-Decides c.req_rules out.req_rules free built.req)
        (λ req.
          Decides-then _ (lines_of (rule_lines now) out.ans_rules) _
            (rules-Decides c.ans_rules out.ans_rules free' built.ans) (λ ans. (_, refl)))

  pub cmds-Decides :
      (cs outs : List Cmd)
      → All CmdUnbound cs
      → Both (CmdBuilt avps) cs outs
      → Decides (All (CmdResolves avps) cs) (lines_of (cmd_lines now) outs)
  cmds-Decides cs outs free both =
      lines_of-Decides (CmdResolves avps) (λ c out. CmdUnbound c × CmdBuilt avps c out)
        (cmd_lines now) cmd_lines-Decides cs outs
        (Both-All CmdUnbound (CmdBuilt avps) cs outs free both)
