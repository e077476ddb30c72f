-- ===== src/Dict/Add.antt =====
-- dict.c: the orders of the dictionary's arrays, an empty dictionary with its base types, and the
-- functions that add to it. A result that points to an element is its slot; `array_push_back`
-- returns 0 or does not return, so the null results never come.
pub mod Orders
use Prim.Native.String.{String}
use zdia.Prelude.{
  ℕ, zero, suc, Option, none, some, List, [], ◌∷◌, ◌++◌, Run, ok, ◌>>=◌, if◌then◌else◌, length, ℤ,
  pos,
}
use zdia.Dict.Text.{find_named, strcmp, int_diff}
use zdia.Dict.Types.{
  App, Vendor, Cmd, DictAvp, AvpType, Dict, Codec, grouped, octet_string, integer32, unsigned32,
  unsigned64, float32, float64,
}

unfoldable pub cmp_app : App → App → ℤ
cmp_app a b = int_diff a.id b.id

unfoldable pub cmp_vendor : Vendor → Vendor → ℤ
cmp_vendor a b = int_diff a.id b.id

unfoldable pub cmp_cmd : Cmd → Cmd → ℤ
cmp_cmd a b = int_diff a.code b.code

unfoldable pub cmp_avp : DictAvp → DictAvp → ℤ
cmp_avp a b = int_diff a.code b.code

-- Between types that have names; `sort_types` of `Build` faults where one has none.
unfoldable pub cmp_type : AvpType → AvpType → ℤ
cmp_type a b = elim a.name [
  | none ↦ pos 0
  | some s ↦ elim b.name [ none ↦ pos 0 | some t ↦ strcmp s t ]
]

abbrev pub base_type : String → String → Codec → AvpType
base_type name desc codec = record {
  name = some name;
  parent_name = none;
  desc = some desc;
  parent = none;
  codec = codec;
}

-- As the source has it, with Integer32 twice.
abbrev pub base_types : List AvpType
base_types =
    base_type "Grouped" "Grouped" grouped
    ∷ base_type "OctetString" "Octet String" octet_string
    ∷ base_type "Integer32" "Integer32" integer32
    ∷ base_type "Integer32" "Integer32" integer32
    ∷ base_type "Unsigned32" "Unsigned32" unsigned32
    ∷ base_type "Unsigned64" "Unsigned64" unsigned64
    ∷ base_type "Float32" "Float32" float32
    ∷ base_type "Float64" "Float64" float64
    ∷ []

unfoldable pub dict_build_base_types : Dict → Dict
dict_build_base_types d = record d { types = d.types ++ base_types }

unfoldable pub dict_new : Dict
unfolding dict_build_base_types
dict_new =
    dict_build_base_types (record { apps = []; vendors = []; cmds = []; avps = []; types = [] })

-- Also `dict_app_new`, less the allocation.
abbrev pub dict_app_init : App
dict_app_init = record { id = 0; name = none; uri = none }

unfoldable pub dict_add_app : Dict → App → ℕ × Dict
dict_add_app d app = (length d.apps, record d { apps = d.apps ++ (app ∷ []) })

unfoldable pub dict_add_cmd : Dict → Cmd → ℕ × Dict
dict_add_cmd d cmd = (length d.cmds, record d { cmds = d.cmds ++ (cmd ∷ []) })

unfoldable pub dict_add_avp : Dict → DictAvp → ℕ × Dict
dict_add_avp d avp = (length d.avps, record d { avps = d.avps ++ (avp ∷ []) })

unfoldable pub find_type : Option String → List AvpType → ℕ → Run (Option ℕ)
unfolding find_named
find_type = find_named (λ t. t.name)

unfoldable pub add_found : Dict → AvpType → Option ℕ → ℕ × Dict
add_found d type (some slot) = (slot, d)
add_found d type none = (length d.types, record d { types = d.types ++ (type ∷ []) })

-- A type whose name is there already is not added.
unfoldable pub dict_add_avp_type : Dict → AvpType → Run (ℕ × Dict)
unfolding find_type add_found
dict_add_avp_type d type = do found ← find_type type.name d.types 0; ok (add_found d type found)

unfoldable pub dict_add_vendor : Dict → Vendor → Dict
dict_add_vendor d vendor = record d { vendors = d.vendors ++ (vendor ∷ []) }
