-- ===== src/Listing/Shown.antt =====
-- test.c: the loop over the AVPs.
use Prim.Native.String.{String}
use zdia.Prelude.{
  ℕ, ◌≡◌, ◌≢◌, ◌⊎◌, inl, inr, refl, sym, subst, ◌∙◌, false, Option, none, some, List, ◌∷◌, map, ok,
}
use zdia.Dict.Text.Search.{same_other, some-injective}
use zdia.Dict.Build.{type_found}
use zdia.Dict.Build.Steps.{AvpReady, plain, a_group, AvpBuilt, has_type, has_rules}
use zdia.Dict.Types.{DictAvp, AvpRule, AvpType, Content, no_content, enums, rules}
use zdia.Listing.{Line, avp_line, avp_lines, heading, sub_lines, content_lines}

abbrev pub NotRules : Content → Type 0
NotRules no_content = Unit
NotRules (enums es) = Unit
NotRules (rules rs) = ⊥

-- Only a group has rules.
abbrev pub PlainContent : DictAvp → Type 0
PlainContent a = (a.type_name ≡ some "grouped") ⊎ NotRules a.content

-- What the loop over the AVPs relies on.
pub data Shows (a : DictAvp) : Type 0 where
  plain_avp :
      (key : String) → a.type_name ≡ some key → key ≢ "grouped" → NotRules a.content → Shows a
  group_avp : (rs : List AvpRule) → a.type_name ≡ some "grouped" → a.content ≡ rules rs → Shows a

content_lines-NotRules :
    (c : Content) → NotRules c → (out : List Line) × (content_lines false c ≡ ok out)
content_lines-NotRules no_content h = (_, refl)
content_lines-NotRules (enums es) h = (_, refl)
content_lines-NotRules (rules rs) h = absurd h

pub avp_lines-Shows : (a : DictAvp) → Shows a → (out : List Line) × (avp_lines a ≡ ok out)
unfolding avp_lines
avp_lines-Shows a (group_avp rs t c) =
    (avp_line a.name a.code a.type_name ∷ heading "sub avps" ∷ map sub_lines rs, rw c (rw t refl))
avp_lines-Shows a (plain_avp key t other c) =
    let (out, e) = content_lines-NotRules a.content c in
    (
      avp_line a.name a.code a.type_name ∷ out,
      rw (t, same_other "grouped" key (λ h. other (sym h)), e) refl,
    )

pub Ready-Shows : (a : DictAvp) → AvpReady a × PlainContent a → Shows a
Ready-Shows a (plain key e other, inl g) = absurd (other (some-injective (sym e ∙ g)))
Ready-Shows a (plain key e other, inr nr) = plain_avp key e other nr
Ready-Shows a (a_group rs e c bs, pc) = group_avp rs e c

type_found-Shows : (a : DictAvp) (found : Option ℕ) → Shows a → Shows (type_found a found)
unfolding type_found
type_found-Shows a none s = s
type_found-Shows a (some slot) (plain_avp key t other c) = plain_avp key t other c
type_found-Shows a (some slot) (group_avp rs t c) = group_avp rs t c

pub AvpBuilt-Shows :
    (types : List AvpType) (avps : List DictAvp) (a out : DictAvp)
    → AvpBuilt types avps a out
    → Shows a
    → Shows out
AvpBuilt-Shows types avps a out (has_type key found t other first e) s =
    subst Shows (sym e) (type_found-Shows a found s)
AvpBuilt-Shows types avps a out (has_rules rs bound g c both e) (group_avp rs' t c') =
    subst Shows (sym e) (group_avp bound t refl)
AvpBuilt-Shows types avps a out (has_rules rs bound g c both e) (plain_avp key t other nr) =
    absurd (subst NotRules c nr)
