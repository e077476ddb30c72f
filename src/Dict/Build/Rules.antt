-- ===== src/Dict/Build/Rules.antt =====
-- dict.c: the pointers that `dict_build_rules` sets.
use Prim.Native.String.{String}
use zdia.Prelude.{ℕ, ◌≡◌, refl, Option, none, some, List, ok, All, Both, each-Both}
use zdia.Dict.Text.Search.{AllNamed, First, find_named-First}
use zdia.Dict.Build.{find_avp, bind_found, bind_rule, dict_build_rules}
use zdia.Dict.Types.{DictAvp, AvpRule}

-- A rule that is bound, or has the name of an AVP.
pub data Bindable (r : AvpRule) : Type 0 where
  bound : (slot : ℕ) → r.avp ≡ some slot → Bindable r
  named : (key : String) → r.avp ≡ none → r.avp_name ≡ some key → Bindable r

-- What becomes of a rule: nothing if it was bound, else it points to the first AVP of its name, if
-- there is one.
pub data BoundTo (avps : List DictAvp) (r : AvpRule) (out : AvpRule) : Type 0 where
  kept : (slot : ℕ) → r.avp ≡ some slot → out ≡ r → BoundTo avps r out
  looked_up :
      (key : String) (found : Option ℕ)
      → r.avp ≡ none
      → r.avp_name ≡ some key
      → First (λ a. a.name) key avps 0 found
      → out ≡ bind_found r found
      → BoundTo avps r out

module _ (avps : List DictAvp) (named_avps : AllNamed (λ a. a.name) avps) where
  bind_rule-BoundTo :
      (r : AvpRule)
      → Bindable r
      → (out : AvpRule) × (bind_rule avps r r.avp ≡ ok out) × BoundTo avps r out
  unfolding bind_rule find_avp
  bind_rule-BoundTo r (bound slot e) = (r, rw e refl, kept slot e refl)
  bind_rule-BoundTo r (named key e n) =
      let (found, ran, first) = find_named-First (λ (a : DictAvp). a.name) key avps 0 named_avps in
      (bind_found r found, rw (e, n, ran) refl, looked_up key found e n first refl)

  -- Where every AVP has a name, and every rule is bound or has a name, `dict_build_rules` succeeds:
  -- the rules that are bound stay as they are, and each of the others points to the first AVP with
  -- its name, or to none if there is no such AVP.
  pub dict_build_rules-BoundTo :
      (rules : List AvpRule)
      → All Bindable rules
      → (out : List AvpRule) × (dict_build_rules avps rules ≡ ok out)
        × Both (BoundTo avps) rules out
  unfolding dict_build_rules
  dict_build_rules-BoundTo rules ready =
      each-Both (λ r. bind_rule avps r r.avp) Bindable (BoundTo avps) bind_rule-BoundTo rules ready
