-- ===== src/Dict/Types.antt =====
-- dict.h: the records of the Diameter dictionary. A `const char *` is an optional text. A pointer
-- to an element of one of the dictionary's arrays is the number of its slot, since that is what
-- the pointer keeps when the elements move.
use Prim.Native.String.{String}
use zdia.Prelude.{ℕ, Option, List}

pub data Codec : Type 0 where
  grouped octet_string integer32 integer64 unsigned32 unsigned64 float32 float64 unknown : Codec

pub data Position : Type 0 where
  ap_unspecified ap_first ap_last : Position

-- RL_REQUIRED and RL_SHALL are RL_MUST, and so on.
pub data RequirementLevel : Type 0 where
  rl_must rl_must_not rl_should rl_should_not rl_may : RequirementLevel

pub record Vendor : Type 0 where
  pub id : ℕ
  pub name : Option String

-- `parent` is a slot of `Dict.types`.
pub record AvpType : Type 0 where
  pub name : Option String
  pub parent_name : Option String
  pub desc : Option String
  pub parent : Option ℕ
  pub codec : Codec

pub record App : Type 0 where
  pub id : ℕ
  pub name : Option String
  pub uri : Option String

-- `avp` is a slot of `Dict.avps`.
pub record AvpRule : Type 0 where
  pub avp : Option ℕ
  pub avp_name : Option String
  pub position : Position
  pub min : ℕ
  pub max : ℕ

pub record EnumValue : Type 0 where
  pub code : ℕ
  pub name : Option String

-- The union of `enums` and `rules`; both are null in a zeroed record.
pub data Content : Type 0 where
  no_content : Content
  enums : List EnumValue → Content
  rules : List AvpRule → Content

-- `type` is a slot of `Dict.types`, and `app` one of `Dict.apps`.
pub record DictAvp : Type 0 where
  pub name : Option String
  pub desc : Option String
  pub code : ℕ
  pub vendor_id : ℕ
  pub may_encrypt : ℕ
  pub mandatory : RequirementLevel
  pub protected : RequirementLevel
  pub type_name : Option String
  pub type : Option ℕ
  pub content : Content
  pub app : Option ℕ

pub record Cmd : Type 0 where
  pub code : ℕ
  pub name : Option String
  pub proxiable : ℕ
  pub req_rules : List AvpRule
  pub ans_rules : List AvpRule
  pub app : Option ℕ

-- Each `array_t *` is the list of its elements (see `Array` for the array itself).
pub record Dict : Type 0 where
  pub apps : List App
  pub vendors : List Vendor
  pub cmds : List Cmd
  pub avps : List DictAvp
  pub types : List AvpType
