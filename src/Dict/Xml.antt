-- ===== src/Dict/Xml.antt =====
-- dict.c: the handlers of the XML parser's events, as they build a dictionary. `name` and `attrs` are
-- the element's; a text that `strdup` copies is the same text.
pub mod Attrs
pub mod Kept
use Prim.Native.String.{String}
use zdia.Prelude.{
  ℕ, Option, none, some, List, [], ◌∷◌, ◌++◌, Run, ok, fault, ◌>>=◌, non_null, if◌then◌else◌,
  get_elem?, set,
}
use zdia.Array
use zdia.Array.{Array}
use zdia.Memory.{Memory}
use zdia.Dict.Text.{Libc, same}
use zdia.Dict.Add.{dict_add_app, dict_add_cmd, dict_add_avp, dict_add_avp_type, dict_add_vendor}
use zdia.Dict.Types.{
  App, Vendor, Cmd, DictAvp, AvpRule, EnumValue, Content, no_content, enums, rules, Dict,
}
use Attrs.{
  Attr, Junk, new_base, new_app, new_vendor, new_cmd, new_rule, new_avp, new_enum, new_type,
}

-- What `curr_rules` points to.
pub data Rules : Type 0 where
  request_rules answer_rules avp_rules : ℕ → Rules

-- `xml_parse_info_t`, but for the path: the pointers `curr_...` are slots, and not set before the
-- first such element.
pub record Cursor : Type 0 where
  pub dict : Dict
  pub curr_app : Option ℕ
  pub curr_cmd : Option ℕ
  pub curr_avp : Option ℕ
  pub curr_rules : Option Rules

pub record ParseInfo : Type 0 where
  pub path : Array
  pub cursor : Cursor

-- A change of the element at a slot.
unfoldable pub change {ℓ} : {A : Type ℓ} → (A → Run A) → List A → Option ℕ → Run (List A)
change f xs curr = do
  slot ← non_null curr
  x ← non_null (get_elem? xs slot)
  y ← f x
  ok (set xs slot y)

-- `array_push_back` onto the rules; an array of enum values has shorter elements.
unfoldable pub push_content : AvpRule → Content → Run Content
push_content rule no_content = fault
push_content rule (enums es) = fault
push_content rule (rules rs) = ok (rules (rs ++ (rule ∷ [])))

unfoldable pub push_rule : Dict → AvpRule → Rules → Run Dict
unfolding change push_content
push_rule d rule (request_rules slot) = do
  cmds ← change (λ c. ok (record c { req_rules = c.req_rules ++ (rule ∷ []) })) d.cmds (some slot)
  ok (record d { cmds = cmds })
push_rule d rule (answer_rules slot) = do
  cmds ← change (λ c. ok (record c { ans_rules = c.ans_rules ++ (rule ∷ []) })) d.cmds (some slot)
  ok (record d { cmds = cmds })
push_rule d rule (avp_rules slot) = do
  avps ←
      change (λ a. push_content rule a.content >>= λ c. ok (record a { content = c })) d.avps
        (some slot)
  ok (record d { avps = avps })

-- `content.enums`, made when the union is null; onto an array of rules the `memcpy` of a rule's
-- size reads past the enum value.
unfoldable pub push_enum : EnumValue → Content → Run Content
push_enum e no_content = ok (enums (e ∷ []))
push_enum e (enums es) = ok (enums (es ++ (e ∷ [])))
push_enum e (rules rs) = fault

unfoldable pub add_enum : EnumValue → DictAvp → Run DictAvp
unfolding push_enum
add_enum e a = push_enum e a.content >>= λ content. ok (record a { content = content })

-- `grouped` makes the AVP a group without rules.
abbrev pub as_group : DictAvp → Run DictAvp
as_group a = ok (record a { type_name = some "grouped"; content = rules [] })

-- The loop over the attributes of `type`: the AVP is used where one of them is `type-name`.
unfoldable pub set_type_name : List Attr → List DictAvp → Option ℕ → Run (List DictAvp)
unfolding change
set_type_name [] avps curr = ok avps
set_type_name ((key, value) ∷ attrs) avps curr =
    if same key "type-name"
    then change (λ a. ok (record a { type_name = some value })) avps curr
      >>= (λ avps'. set_type_name attrs avps' curr)
    else set_type_name attrs avps curr

-- The elements that add to the dictionary, and those that say where rules go.
pub data Element : Type 0 where
  base application vendor command request_rules_of answer_rules_of grouped_of avprule avp type_of
        enum_of typedefn other :
      Element

-- The chain of `strcmp` on the name.
abbrev pub element : String → Element
element name =
    if same name "base"
    then base
    else if same name "application"
    then application
    else if same name "vendor"
    then vendor
    else if same name "command"
    then command
    else if same name "requestrules"
    then request_rules_of
    else if same name "answerrules"
    then answer_rules_of
    else if same name "grouped"
    then grouped_of
    else if same name "avprule"
    then avprule
    else if same name "avp"
    then avp
    else if same name "type"
    then type_of
    else if same name "enum"
    then enum_of
    else if same name "typedefn"
    then typedefn
    else other

module _ (c : Libc) (junk : Junk) where
  unfoldable pub handle : Cursor → Element → List Attr → Run Cursor
  unfolding push_rule add_enum set_type_name change dict_add_app dict_add_cmd dict_add_avp
      dict_add_vendor
  handle info base attrs =
      let (slot, d) = dict_add_app info.dict (new_base attrs) in
      ok (record info { dict = d; curr_app = some slot })
  handle info application attrs =
      let (slot, d) = dict_add_app info.dict (new_app c attrs) in
      ok (record info { dict = d; curr_app = some slot })
  handle info vendor attrs =
      ok (record info { dict = dict_add_vendor info.dict (new_vendor c junk attrs) })
  handle info command attrs =
      let (slot, d) = dict_add_cmd info.dict (new_cmd c junk attrs) in
      ok (record info { dict = d; curr_cmd = some slot })
  handle info request_rules_of attrs = do
    slot ← non_null info.curr_cmd
    ok (record info { curr_rules = some (request_rules slot) })
  handle info answer_rules_of attrs = do
    slot ← non_null info.curr_cmd
    ok (record info { curr_rules = some (answer_rules slot) })
  handle info grouped_of attrs = do
    avps ← change as_group info.dict.avps info.curr_avp
    slot ← non_null info.curr_avp
    ok (record info { dict = record info.dict { avps = avps }; curr_rules = some (avp_rules slot) })
  handle info avprule attrs = do
    to ← non_null info.curr_rules
    d ← push_rule info.dict (new_rule c attrs) to
    ok (record info { dict = d })
  handle info avp attrs =
      let (slot, d) = dict_add_avp info.dict (new_avp c info.curr_app attrs) in
      ok (record info { dict = d; curr_avp = some slot })
  handle info type_of attrs = do
    avps ← set_type_name attrs info.dict.avps info.curr_avp
    ok (record info { dict = record info.dict { avps = avps } })
  handle info enum_of attrs = do
    avps ← change (add_enum (new_enum c junk attrs)) info.dict.avps info.curr_avp
    ok (record info { dict = record info.dict { avps = avps } })
  handle info typedefn attrs = do
    (slot, d) ← dict_add_avp_type info.dict (new_type attrs)
    ok (record info { dict = d })
  handle info other attrs = ok info

  -- `array_push_back(&path, strdup(name))` stores the first bytes of the text, not the pointer; its
  -- status is dropped.
  unfoldable pub xml_elem_start : Memory → ParseInfo → String → List Attr → Run ParseInfo
  unfolding handle
  xml_elem_start m info name attrs = do
    (status, path) ← Array.push_back m info.path (c.strdup name)
    cursor ← handle info.cursor (element name) attrs
    ok (record { path = path; cursor = cursor })

unfoldable pub xml_elem_end : ParseInfo → ParseInfo
xml_elem_end info = let (status, path) = Array.pop_back info.path in record info { path = path }
