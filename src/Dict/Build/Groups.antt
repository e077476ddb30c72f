-- ===== src/Dict/Build/Groups.antt =====
-- dict.c: the type that `dict_build` gives a grouped AVP.
use Prim.Native.String.{String}
use zdia.Prelude.{ℕ, ◌≡◌, ◌≢◌, refl, Option, none, some, List, ok, All, Both, get_elem?}
use zdia.Dict.Text.Search.{AllNamed, First, absent, at, find_named-First, same_other}
use zdia.Dict.Add.{find_type}
use zdia.Dict.Build.{build_avp, build_group, build_content, type_found, codec_grouped}
use zdia.Dict.Build.Rules.{Bindable, BoundTo, dict_build_rules-BoundTo}
use zdia.Dict.Types.{DictAvp, AvpRule, AvpType, rules}

module _ (types : List AvpType) (named_types : AllNamed (λ t. t.name) types) (avps : List DictAvp)
    (named_avps : AllNamed (λ a. a.name) avps) where
  -- An AVP whose type has another name than `grouped` points to the first type of that name, and is
  -- as it was where there is none.
  pub build_avp-type :
      (a : DictAvp) (name : String)
      → a.type_name ≡ some name
      → name ≢ "grouped"
      → (found : Option ℕ) × (build_avp types avps a ≡ ok (type_found a found))
        × First (λ t. t.name) name types 0 found
  unfolding build_avp build_group find_type
  build_avp-type a name e other =
      let (found, ran, first) =
        find_named-First (λ (t : AvpType). t.name) name types 0 named_types in
      (found, rw (e, same_other name "grouped" other, ran) refl, first)

  -- An AVP of type `grouped` has its rules bound, but its type is that of slot 0, whatever stands
  -- there in the order of the names, unless some type has the name `grouped` exactly.
  pub build_avp-grouped :
      (a : DictAvp) (rs : List AvpRule)
      → a.type_name ≡ some "grouped"
      → a.content ≡ rules rs
      → All Bindable rs
      → ((j : ℕ) (t : AvpType) → get_elem? types j ≡ some t → t.name ≢ some "grouped")
      → (out : List AvpRule) × (build_avp types avps a
          ≡ ok (record a { type = some codec_grouped; content = rules out }))
        × Both (BoundTo avps) rs out
  unfolding build_avp build_group build_content type_found find_type
  build_avp-grouped a rs e content ready none_so =
      let (out, bound, both) = dict_build_rules-BoundTo avps named_avps rs ready in
      let (found, ran, first) =
        find_named-First (λ (t : AvpType). t.name) "grouped" types 0 named_types in
      (out, rw (e, content, bound, ran, no_type found first) refl, both)
    where
      no_type :
          (found : Option ℕ)
          → First (λ (t : AvpType). t.name) "grouped" types 0 found
          → found ≡ none
      no_type found (absent h q) = q
      no_type found (at j t g n least q) = absurd (none_so j t g n)
