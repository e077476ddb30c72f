-- ===== src/Dict/Build.antt =====
-- dict.c: `dict_build` sorts the arrays and sets the pointers from rules to AVPs, from types to their
-- parents and from AVPs to their types, and the codecs of the types.
pub mod Rules
pub mod Codecs
pub mod Groups
pub mod Inherited
pub mod Kept
pub mod Steps
pub mod Whole
use Prim.Native.String.{String}
use zdia.Prelude.{
  ℕ, zero, suc, ◌+◌, Bool, true, false, ◌||◌, ◌&&◌, Option, none, some, List, [], ◌∷◌, Run, ok,
  fault, out_of_fuel, ◌>>=◌, non_null, each, ltb, if◌then◌else◌, length, get_elem?, set, ℤ,
}
use zdia.Dict.Text.{same_text, find_named}
use zdia.Dict.Add.{cmp_app, cmp_vendor, cmp_cmd, cmp_avp, cmp_type, find_type}
use zdia.Dict.Types.{
  Dict, Cmd, DictAvp, AvpRule, AvpType, Content, no_content, enums, rules, Codec, grouped,
  octet_string, integer32, integer64, unsigned32, unsigned64, float32, float64, unknown,
}

-- `qsort`, which the C library chooses: what order it gives elements that compare equal is open.
pub record Sorting : Type 1 where
  pub sort : {A : Type 0} → (A → A → ℤ) → List A → List A

unfoldable pub find_avp : Option String → List DictAvp → ℕ → Run (Option ℕ)
unfolding find_named
find_avp = find_named (λ a. a.name)

-- A rule that is bound is left alone, and so is one for which there is no AVP.
unfoldable pub bind_found : AvpRule → Option ℕ → AvpRule
bind_found rule none = rule
bind_found rule (some slot) = record rule { avp = some slot }

unfoldable pub bind_rule : List DictAvp → AvpRule → Option ℕ → Run AvpRule
unfolding find_avp bind_found
bind_rule avps rule (some slot) = ok rule
bind_rule avps rule none = do found ← find_avp rule.avp_name avps 0; ok (bind_found rule found)

unfoldable pub dict_build_rules : List DictAvp → List AvpRule → Run (List AvpRule)
unfolding bind_rule
dict_build_rules avps = each (λ rule. bind_rule avps rule rule.avp)

unfoldable pub build_cmd : List DictAvp → Cmd → Run Cmd
unfolding dict_build_rules
build_cmd avps cmd = do
  req ← dict_build_rules avps cmd.req_rules
  ans ← dict_build_rules avps cmd.ans_rules
  ok (record cmd { req_rules = req; ans_rules = ans })

-- `qsort` compares every element of two or more, and `strcmp` faults on a null name.
unfoldable pub all_named : List AvpType → Bool
all_named [] = true
all_named (t ∷ ts) = elim t.name [ none ↦ false | some s ↦ all_named ts ]

module _ (q : Sorting) where
  unfoldable pub sort_types : List AvpType → Run (List AvpType)
  unfolding all_named
  sort_types ts = if ltb (length ts) 2 || all_named ts then ok (q.sort cmp_type ts) else fault

-- The pointer to the parent, if the type names one that is there.
unfoldable pub parent_found : AvpType → Option ℕ → AvpType
parent_found t none = t
parent_found t (some slot) = record t { parent = some slot }

unfoldable pub link_type : List AvpType → AvpType → Option String → Run AvpType
unfolding parent_found find_type
link_type types t none = ok t
link_type types t (some name) = do found ← find_type (some name) types 0; ok (parent_found t found)

unfoldable pub link_types : List AvpType → Run (List AvpType)
unfolding link_type
link_types types = each (λ t. link_type types t t.parent_name) types

-- The slot of the base type Grouped as the source has it, CODEC_GROUPED: the types are sorted by
-- their names by then.
abbrev pub codec_grouped : ℕ
codec_grouped = 0

-- `dict_build_rules(avp->content.rules, ...)`: a null pointer is a fault, and so is an array of the
-- union's other kind, whose elements are shorter than a rule.
unfoldable pub build_content : List DictAvp → Content → Run Content
unfolding dict_build_rules
build_content avps no_content = fault
build_content avps (enums es) = fault
build_content avps (rules rs) = do out ← dict_build_rules avps rs; ok (rules out)

unfoldable pub build_group : List DictAvp → DictAvp → Bool → Run DictAvp
unfolding build_content
build_group avps a false = ok a
build_group avps a true = do
  content ← build_content avps a.content
  ok (record a { type = some codec_grouped; content = content })

unfoldable pub type_found : DictAvp → Option ℕ → DictAvp
type_found a none = a
type_found a (some slot) = record a { type = some slot }

unfoldable pub build_avp : List AvpType → List DictAvp → DictAvp → Run DictAvp
unfolding build_group type_found find_type
build_avp types avps a = do
  is_group ← same_text a.type_name (some "grouped")
  b ← build_group avps a is_group
  found ← find_type a.type_name types 0
  ok (type_found b found)

abbrev pub is_unknown : Codec → Bool
is_unknown unknown = true
is_unknown _ = false

-- `while (curr && curr->codec == CODEC_UNKNOWN) curr = curr->parent;`: the codec at the end of the
-- chain, if it does not end in a null pointer.
unfoldable pub find_codec : ℕ → List AvpType → Option ℕ → Run (Option Codec)
find_codec zero types curr = out_of_fuel
find_codec (suc fuel) types none = ok none
find_codec (suc fuel) types (some slot) = do
  t ← non_null (get_elem? types slot)
  if is_unknown t.codec then find_codec fuel types t.parent else ok (some t.codec)

unfoldable pub codec_found : List AvpType → ℕ → Option Codec → Run (List AvpType)
codec_found types i none = ok types
codec_found types i (some c) = do
  t ← non_null (get_elem? types i)
  ok (set types i (record t { codec = c }))

-- The last loop, from slot `i` on for `count` types.
unfoldable pub set_codecs : ℕ → ℕ → ℕ → List AvpType → Run (List AvpType)
unfolding find_codec codec_found
set_codecs fuel zero i types = ok types
set_codecs fuel (suc count) i types = find_codec fuel types (some i) >>= λ found.
    codec_found types i found >>= λ types'. set_codecs fuel count (suc i) types'

module _ (q : Sorting) (fuel : ℕ) where
  -- The commands' rules are bound before the AVPs are sorted, as in the source.
  unfoldable pub dict_build : Dict → Run Dict
  unfolding build_cmd sort_types link_types build_avp set_codecs
  dict_build d = do
    cmds ← each (build_cmd d.avps) (q.sort cmp_cmd d.cmds)
    sorted ← sort_types q d.types
    linked ← link_types sorted
    let avps = q.sort cmp_avp d.avps
    avps' ← each (build_avp linked avps) avps
    types ← set_codecs fuel (length linked) 0 linked
    ok (record {
      apps = q.sort cmp_app d.apps;
      vendors = q.sort cmp_vendor d.vendors;
      cmds = cmds;
      avps = avps';
      types = types;
    })
