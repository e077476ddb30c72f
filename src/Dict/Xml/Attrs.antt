-- ===== src/Dict/Xml/Attrs.antt =====
-- dict.c: what `xml_elem_start` makes of an element's attributes. An attribute that is not known is
-- logged and passed over.
use Prim.Native.String.{String}
use zdia.Prelude.{ℕ, Option, none, some, List, [], ◌∷◌, ltb, if◌then◌else◌}
use zdia.Dict.Add.{dict_app_init}
use zdia.Dict.Text.{Libc, same}
use zdia.Dict.Types.{
  App, Vendor, Cmd, DictAvp, AvpType, AvpRule, EnumValue, Position, ap_unspecified, ap_first,
  ap_last, RequirementLevel, rl_must, rl_must_not, rl_may, no_content, unknown,
}

abbrev pub Attr : Type 0
Attr = String × String

-- What the stack holds where the source does not set a variable.
pub record Junk : Type 0 where
  pub vendor : Vendor
  pub cmd : Cmd
  pub enum : EnumValue

-- `for (i = 0; attrs[i]; i += 2)`
abbrev pub fill {ℓ} : {A : Type ℓ} → (A → Attr → A) → A → List Attr → A
fill f a [] = a
fill f a (attr ∷ attrs) = fill f (f a attr) attrs

base_attr : App → Attr → App
base_attr app (key, value) = if same key "uri" then record app { uri = some value } else app

unfoldable pub new_base : List Attr → App
unfolding base_attr
new_base attrs = fill base_attr (record dict_app_init { id = 0; name = some "base" }) attrs

-- The levels that are known; any other text leaves the field.
abbrev pub level_of : String → RequirementLevel → RequirementLevel
level_of value old =
    if same value "may"
    then rl_may
    else if same value "must"
    then rl_must
    else if same value "mustnot"
    then rl_must_not
    else old

abbrev pub encrypt_of : String → ℕ → ℕ
encrypt_of value old = if same value "yes" then 1 else if same value "no" then 0 else old

abbrev pub position_of : String → Position
position_of value =
    if same value "first" then ap_first else if same value "last" then ap_last else ap_unspecified

unfoldable pub type_attr : AvpType → Attr → AvpType
type_attr t (key, value) =
    if same key "type-name"
    then record t { name = some value }
    else if same key "type-parent"
    then record t { parent_name = some value }
    else if same key "description"
    then record t { desc = some value }
    else t

unfoldable pub new_type : List Attr → AvpType
unfolding type_attr
new_type attrs =
    fill type_attr
      (record { name = none; parent_name = none; desc = none; parent = none; codec = unknown })
      attrs

-- Zero is RL_MUST.
abbrev pub blank_avp : Option ℕ → DictAvp
blank_avp app = record {
  name = none;
  desc = none;
  code = 0;
  vendor_id = 0;
  may_encrypt = 0;
  mandatory = rl_must;
  protected = rl_must;
  type_name = none;
  type = none;
  content = no_content;
  app = app;
}

module _ (c : Libc) where
  app_attr : App → Attr → App
  app_attr app (key, value) =
      if same key "id"
      then record app { id = c.atoi value }
      else if same key "name"
      then record app { name = some value }
      else if same key "uri"
      then record app { uri = some value }
      else app

  unfoldable pub new_app : List Attr → App
  unfolding app_attr
  new_app attrs = fill app_attr dict_app_init attrs

  rule_attr : AvpRule → Attr → AvpRule
  rule_attr r (key, value) =
      if same key "name"
      then record r { avp_name = some value }
      else if same key "position"
      then record r { position = position_of value }
      else if same key "min"
      then record r { min = c.atoi value }
      else if same key "max"
      then record r { max = c.atoi value }
      else r

  -- The maximum is at least the minimum.
  abbrev pub widened : AvpRule → AvpRule
  widened r = if ltb r.max r.min then record r { max = r.min } else r

  unfoldable pub new_rule : List Attr → AvpRule
  unfolding rule_attr
  new_rule attrs = widened (
      fill rule_attr
        (record { avp = none; avp_name = none; position = ap_unspecified; min = 0; max = 0 }) attrs)

  unfoldable pub avp_attr : DictAvp → Attr → DictAvp
  avp_attr a (key, value) =
      if same key "name"
      then record a { name = some value }
      else if same key "code"
      then record a { code = c.atoi value }
      else if same key "mandatory"
      then record a { mandatory = level_of value a.mandatory }
      else if same key "may-encrypt"
      then record a { may_encrypt = encrypt_of value a.may_encrypt }
      else if same key "protected"
      then record a { protected = level_of value a.protected }
      else if same key "description"
      then record a { desc = some value }
      else a

  unfoldable pub new_avp : Option ℕ → List Attr → DictAvp
  unfolding avp_attr
  new_avp app attrs = fill avp_attr (blank_avp app) attrs

  module _ (junk : Junk) where
    vendor_attr : Vendor → Attr → Vendor
    vendor_attr v (key, value) =
        if same key "id"
        then record v { id = c.atoi value }
        else if same key "name"
        then record v { name = some value }
        else v

    unfoldable pub new_vendor : List Attr → Vendor
    unfolding vendor_attr
    new_vendor attrs = fill vendor_attr junk.vendor attrs

    unfoldable pub cmd_attr : Cmd → Attr → Cmd
    cmd_attr cmd (key, value) =
        if same key "name"
        then record cmd { name = some value }
        else if same key "code"
        then record cmd { code = c.atoi value }
        else if same key "proxiable"
        then record cmd { proxiable = c.atoi value }
        else cmd

    unfoldable pub new_cmd : List Attr → Cmd
    unfolding cmd_attr
    new_cmd attrs =
        fill cmd_attr (record junk.cmd { proxiable = 1; req_rules = []; ans_rules = [] }) attrs

    enum_attr : EnumValue → Attr → EnumValue
    enum_attr e (key, value) =
        if same key "name"
        then record e { name = some value }
        else if same key "code"
        then record e { code = c.atoi value }
        else e

    unfoldable pub new_enum : List Attr → EnumValue
    unfolding enum_attr
    new_enum attrs = fill enum_attr junk.enum attrs
