-- ===== src/Dict/Build/Whole.antt =====
-- dict.c: `dict_build` as a whole.
use zdia.Prelude.{
  All-Permᴰ, ℕ, ◌≡◌, ◌<◌, refl, Option, some, List, ok, All, Both, each-Both, get_elem?, length,
}
use zdia.Dict.Text.Search.{AllNamed}
use zdia.Dict.Add.{cmp_app, cmp_vendor, cmp_cmd, cmp_avp, cmp_type}
use zdia.Dict.Build.{Sorting, link_type, link_types, build_cmd, build_avp, dict_build}
use zdia.Dict.Build.Codecs.{ChainEnds}
use zdia.Dict.Build.Inherited.{inherited, EndsWithin, set_codecs-ChainEnds}
use zdia.Dict.Build.Kept.{IsSorting}
use zdia.Dict.Build.Steps.{
  All-Both, RulesReady, CmdBuilt, IsType, Linked, AvpReady, AvpBuilt, AvpNamed, build_cmd-CmdBuilt,
  sort_types-named, link_type-Linked, Linked-IsType, build_avp-AvpBuilt,
}
use zdia.Dict.Types.{Dict, AvpType, Codec}

-- What `dict_build` relies on.
pub record IsReady (q : Sorting) (fuel : ℕ) (d : Dict) : Type 0 where
  pub cmds : All RulesReady d.cmds
  pub types : All IsType d.types
  pub avps_named : AllNamed (λ a. a.name) d.avps
  pub avps : All AvpReady d.avps
  pub chains :
      (linked : List AvpType)
      → link_types (q.sort cmp_type d.types) ≡ ok linked
      → (slot : ℕ) → slot < length linked
      → EndsWithin linked fuel slot

-- What it makes of a dictionary.
pub record IsBuilt (q : Sorting) (d b : Dict) : Type 0 where
  pub linked : List AvpType
  pub apps : b.apps ≡ q.sort cmp_app d.apps
  pub vendors : b.vendors ≡ q.sort cmp_vendor d.vendors
  pub cmds : Both (CmdBuilt d.avps) (q.sort cmp_cmd d.cmds) b.cmds
  pub parents : Both (Linked (q.sort cmp_type d.types)) (q.sort cmp_type d.types) linked
  pub avps : Both (AvpBuilt linked (q.sort cmp_avp d.avps)) (q.sort cmp_avp d.avps) b.avps
  pub codecs :
      (slot : ℕ)
      → slot < length linked
      → (t : AvpType) × (n : ℕ) × (c : Option Codec) × (get_elem? linked slot ≡ some t)
        × ChainEnds linked (some slot) n c
        × (get_elem? b.types slot ≡ some (inherited t c))

module _ (q : Sorting) (law : IsSorting q) (fuel : ℕ) (d : Dict) (ready : IsReady q fuel d) where
  -- Where every AVP and every type has a name, and no type the name `grouped`, every rule is bound or
  -- names an AVP, every AVP names a type or is a group with rules, and the chains of parents end
  -- within the fuel, `dict_build` succeeds. The arrays of applications, vendors, commands, AVPs and types are as
  -- `qsort` leaves them, of which it is only supposed that it keeps the elements; every type points to the first type
  -- with the name of its parent and has the codec of the first type on its chain that has one, and
  -- every group has its rules bound and slot 0 of the types for its type, and every
  -- other AVP points to the first type with its type's name, if there is one. The rules of a group are bound to the AVPs in their new
  -- order, but those of a command to the slots that the AVPs had before they were sorted.
  pub dict_build-IsBuilt : (b : Dict) × (dict_build q fuel d ≡ ok b) × IsBuilt q d b
  unfolding dict_build link_types
  dict_build-IsBuilt =
      let types = q.sort cmp_type d.types in
      let avps = q.sort cmp_avp d.avps in
      let types_are : All IsType types =
        All-Permᴰ IsType (law.rearranges cmp_type d.types) ready.types in
      let (cmds, ran_cmds, cmds_built) =
        each-Both (build_cmd d.avps) RulesReady (CmdBuilt d.avps)
          (build_cmd-CmdBuilt d.avps ready.avps_named) (q.sort cmp_cmd d.cmds)
          (All-Permᴰ RulesReady (law.rearranges cmp_cmd d.cmds) ready.cmds) in
      let (linked, ran_types, parents) =
        each-Both (λ t. link_type types t t.parent_name) IsType (Linked types)
          (link_type-Linked types types_are) types types_are in
      let linked_are : All IsType linked =
        All-Both IsType (Linked types) (Linked-IsType types) types linked parents types_are in
      let (avps', ran_avps, avps_built) =
        each-Both (build_avp linked avps) AvpReady (AvpBuilt linked avps)
          (build_avp-AvpBuilt linked avps linked_are
            (All-Permᴰ AvpNamed (law.rearranges cmp_avp d.avps) ready.avps_named))
          avps (All-Permᴰ AvpReady (law.rearranges cmp_avp d.avps) ready.avps) in
      let (coded, ran_codecs, codecs) =
        set_codecs-ChainEnds linked fuel (ready.chains linked ran_types) in
      (
        record {
          apps = q.sort cmp_app d.apps;
          vendors = q.sort cmp_vendor d.vendors;
          cmds = cmds;
          avps = avps';
          types = coded;
        },
        rw (ran_cmds, sort_types-named q d.types ready.types, ran_types, ran_avps, ran_codecs) refl,
        record {
          linked = linked;
          apps = refl;
          vendors = refl;
          cmds = cmds_built;
          parents = parents;
          avps = avps_built;
          codecs = codecs;
        },
      )
