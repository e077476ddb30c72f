-- ===== src/Tests/Dictionaries.antt =====
-- dict.c at small dictionaries.
use Prim.Native.String.{String}
use mathlib.Core.List.Permᴰ
use zdia.Prelude.{
  ℕ, zero, suc, All, inl, inr, ◌+◌, ◌≤◌, ◌<◌, ◌^◌, ◌≡◌, ◌≢◌, Bool, ◌⊎◌, ◌↔◌, refl, each, sym, ap,
  subst, ◌∙◌, Option, none, some, List, [], ◌∷◌, arith, ok, out_of_fuel, true, false, length, Both,
  get_elem?,
}
use zdia.Dict.Text.{same}
use zdia.Dict.Text.Search.{same_equal}
use zdia.Dict.Types.{Dict, DictAvp, Codec, AvpType, AvpRule, ap_first, octet_string, unknown, rules}
use zdia.Dict.Add.{cmp_app, base_type, dict_app_init}
use zdia.Dict.Add.Orders.{IsNegative, cmp_app-IsNegative}
use zdia.Dict.Build.{
  Sorting, is_unknown, dict_build, build_avp, codec_grouped, find_codec, set_codecs, link_type,
  link_types,
}
use zdia.Dict.Build.Rules.{named, BoundTo}
use zdia.Dict.Build.Codecs.{has_codec, ChainEnds, to_parent, ring, find_codec-ring}
use zdia.Dict.Build.Groups.{build_avp-grouped}
use zdia.Dict.Build.Kept.{IsSorting}
use zdia.Listing.{listing}
use zdia.Listing.Decides.{Decides}
use zdia.Listing.Rules.{CmdResolves}
use zdia.Listing.Built.{dict_build-listing}
use zdia.Dict.Build.Inherited.{inherited, EndsWithin, set_codecs-ChainEnds}
use zdia.Dict.Build.Steps.{a_group, plain}
use zdia.Dict.Build.Whole.{IsReady, IsBuilt, dict_build-IsBuilt}
use zdia.Dict.Xml.Attrs.{blank_avp}

abbrev pub in_place : Sorting
in_place = record { sort = λ cmp xs. xs }

pub in_place-IsSorting : IsSorting in_place
in_place-IsSorting = record { rearranges = λ cmp xs. Permᴰ.refl xs }

abbrev pub host_rule : AvpRule
host_rule = record { avp = none; avp_name = some "Host"; position = ap_first; min = 1; max = 1 }

abbrev pub host_avp : DictAvp
host_avp = record (blank_avp (some 0)) { name = some "Host"; code = 3; type_name = some "Name" }

abbrev group_avp : DictAvp
group_avp = record (blank_avp (some 0)) {
  name = some "Group";
  code = 4;
  type_name = some "grouped";
  content = rules (host_rule ∷ []);
}

abbrev pub name_type : AvpType
name_type = record {
  name = some "Name";
  parent_name = some "OctetString";
  desc = none;
  parent = none;
  codec = unknown;
}

abbrev pub described : Dict
described = record {
  apps = record dict_app_init { name = some "base" } ∷ [];
  vendors = [];
  cmds =
      record {
        code = 3;
        name = some "Hello";
        proxiable = 1;
        req_rules = host_rule ∷ [];
        ans_rules = [];
        app = none;
      }
      ∷ [];
  avps = host_avp ∷ [];
  types = name_type ∷ [];
}

-- A type below the octet strings, and two that name each other.
abbrev pub octets : AvpType
octets = base_type "OctetString" "" octet_string

abbrev chain : List AvpType
chain = octets ∷ record name_type { parent = some 0 } ∷ []

abbrev two_ring : List AvpType
two_ring = record name_type { parent = some 1 } ∷ record name_type { parent = some 0 } ∷ []

chain-EndsWithin : (slot : ℕ) → slot < 2 → EndsWithin chain 2 slot
chain-EndsWithin zero h =
    (octets, 0, some octet_string, refl, has_codec 0 octets refl refl, omega arith)
chain-EndsWithin (suc zero) h = (
  record name_type { parent = some 0 },
  1,
  some octet_string,
  refl,
  to_parent 1 (record name_type { parent = some 0 }) refl refl (has_codec 0 octets refl refl),
  omega arith,
)
chain-EndsWithin (suc (suc slot)) h = absurd (omega arith)

set_codecs-ChainEnds_example :
    (out : List AvpType) × (set_codecs 2 (length chain) 0 chain ≡ ok out)
    × ((slot : ℕ)
        → slot < length chain
        → (t : AvpType) × (n : ℕ) × (c : Option Codec) × (get_elem? chain slot ≡ some t)
          × ChainEnds chain (some slot) n c
          × (get_elem? out slot ≡ some (inherited t c)))
set_codecs-ChainEnds_example = set_codecs-ChainEnds chain 2 chain-EndsWithin

-- A dictionary with a group, before it is built.
abbrev pub unbuilt : Dict
unbuilt = record described { avps = group_avp ∷ host_avp ∷ []; types = octets ∷ name_type ∷ [] }

unbuilt-chains :
    (linked : List AvpType)
    → link_types unbuilt.types ≡ ok linked
    → (slot : ℕ) → slot < length linked
    → EndsWithin linked 2 slot
unfolding link_types link_type each
unbuilt-chains linked e =
    subst (λ ts. (slot : ℕ) → slot < length ts → EndsWithin ts 2 slot) chain_is chain-EndsWithin
  where
    chain_is : chain ≡ linked
    chain_is = cc

pub other_name :
    (x t : AvpType) (name : String)
    → ◌≡◌ {A = Option AvpType} (some x) (some t)
    → x.name ≡ some name
    → same name "grouped" ≡ false
    → t.name ≢ some "grouped"
other_name x t name e n f g = true-false (sym (same_equal name "grouped" names) ∙ f)
  where
    names : name ≡ "grouped"
    names = cc

    true-false : ◌≡◌ {A = Bool} true false → ⊥
    true-false h = cc

pub unbuilt-IsReady : IsReady in_place 2 unbuilt
unbuilt-IsReady = record {
  cmds = (((named "Host" refl refl, tt), tt), tt);
  types = (
    (("OctetString", refl), other_name octets octets "OctetString" refl refl refl),
    ((("Name", refl), other_name name_type name_type "Name" refl refl refl), tt),
  );
  avps_named = (("Group", refl), (("Host", refl), tt));
  avps = (
    a_group (host_rule ∷ []) refl refl (named "Host" refl refl, tt),
    (plain "Name" refl (λ e. other_name name_type name_type "Name" refl refl refl (ap some e)), tt),
  );
  chains = unbuilt-chains;
}

dict_build-IsBuilt_example :
    (b : Dict) × (dict_build in_place 2 unbuilt ≡ ok b) × IsBuilt in_place unbuilt b
dict_build-IsBuilt_example =
    dict_build-IsBuilt in_place in_place-IsSorting 2 unbuilt unbuilt-IsReady

dict_build-listing_example :
    (b : Dict) × (dict_build in_place 2 unbuilt ≡ ok b)
    × Decides (All (CmdResolves unbuilt.avps) unbuilt.cmds) (listing b)
dict_build-listing_example =
    dict_build-listing in_place in_place-IsSorting 2 unbuilt unbuilt-IsReady (((refl, tt), tt), tt)
      (inl refl, (inr tt, tt))

two_ring-step :
    (slot : ℕ)
    → slot < 2
    → (t : AvpType) × (next : ℕ) × (get_elem? two_ring slot ≡ some t)
      × (is_unknown t.codec ≡ true)
      × (t.parent ≡ some next)
      × (next < 2)
two_ring-step zero h = (record name_type { parent = some 1 }, 1, refl, refl, refl, omega arith)
two_ring-step (suc zero) h =
    (record name_type { parent = some 0 }, 0, refl, refl, refl, omega arith)
two_ring-step (suc (suc slot)) h = absurd (omega arith)

find_codec-ring_example : find_codec 100 two_ring (some 0) ≡ out_of_fuel
find_codec-ring_example =
    find_codec-ring two_ring (λ slot. slot < 2) (ring two_ring-step) 100 0 (omega arith)

chain-ungrouped : (j : ℕ) (t : AvpType) → get_elem? chain j ≡ some t → t.name ≢ some "grouped"
chain-ungrouped zero t e =
    other_name (base_type "OctetString" "" octet_string) t "OctetString" e refl refl
chain-ungrouped (suc zero) t e =
    other_name (record name_type { parent = some 0 }) t "Name" e refl refl
chain-ungrouped (suc (suc j)) t e = absurd (none_some e)
  where
    none_some : ◌≡◌ {A = Option AvpType} none (some t) → ⊥
    none_some h = cc

build_avp-grouped_example :
    (out : List AvpRule) × (build_avp chain (host_avp ∷ group_avp ∷ []) group_avp
      ≡ ok (record group_avp { type = some codec_grouped; content = rules out }))
    × Both (BoundTo (host_avp ∷ group_avp ∷ [])) (host_rule ∷ []) out
build_avp-grouped_example =
    build_avp-grouped chain (("OctetString", refl), (("Name", refl), tt))
      (host_avp ∷ group_avp ∷ []) (("Host", refl), (("Group", refl), tt)) group_avp (host_rule ∷ [])
      refl refl (named "Host" refl refl, tt) chain-ungrouped

-- The base protocol and the relay application.
cmp_app-IsNegative_example :
    IsNegative
      (cmp_app (record dict_app_init { id = 0 }) (record dict_app_init { id = 4294967295 }))
    ↔ (((0 < 4294967295) × (4294967295 ≤ 0 + 2 ^ 31)) ⊎ (4294967295 + 2 ^ 31 ≤ 0))
cmp_app-IsNegative_example =
    cmp_app-IsNegative (record dict_app_init { id = 0 }) (record dict_app_init { id = 4294967295 })
      (omega arith) (omega arith)
