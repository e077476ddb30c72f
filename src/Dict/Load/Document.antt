-- ===== src/Dict/Load/Document.antt =====
-- A dictionary file, which dict.c reads, as a document, and the dictionary that it describes.
use Prim.Native.String.{String}
use zdia.Prelude.{ℕ, Option, some, List, [], ◌∷◌, ◌++◌, map, Run, ok, ◌>>=◌, length, if◌then◌else◌}
use zdia.Dict.Text.{Libc, same}
use zdia.Dict.Add.{dict_add_avp_type}
use zdia.Dict.Types.{Dict, App, Cmd, DictAvp, Content, no_content, enums, rules}
use zdia.Dict.Xml.Attrs.{
  Attr, Junk, new_base, new_app, new_vendor, new_cmd, new_rule, new_avp, new_enum, new_type,
}
use zdia.Dict.Load.Trees.{Forest, leaf, node}

-- An AVP has a type, and then the values of an enumeration, or is a group with its rules.
pub data AvpBody : Type 0 where
  typed : List Attr → List (List Attr) → AvpBody
  group : List (List Attr) → AvpBody

pub data Item : Type 0 where
  a_vendor : List Attr → Item
  a_command : List Attr → (req ans : List (List Attr)) → Item
  a_type : List Attr → Item
  an_avp : List Attr → AvpBody → Item

-- The base protocol or an application, with what it declares; or an item outside of them, as the
-- vendors at the start of a file.
pub data Section : Type 0 where
  stray : Item → Section
  the_base : List Attr → List Item → Section
  an_application : List Attr → List Item → Section

-- Elements of one name, without children.
abbrev pub row : String → List (List Attr) → Forest → Forest
row name [] others = others
row name (attrs ∷ rest) others = node name attrs leaf (row name rest others)

abbrev pub body_forest : AvpBody → Forest
body_forest (typed attrs values) = node "type" attrs leaf (row "enum" values leaf)
body_forest (group members) = node "grouped" [] (row "avprule" members leaf) leaf

-- A command's rules of one kind, where it has some.
abbrev pub rules_forest : String → List (List Attr) → Forest → Forest
rules_forest name [] others = others
rules_forest name (attrs ∷ rest) others = node name [] (row "avprule" (attrs ∷ rest) leaf) others

abbrev pub item_forest : Item → Forest → Forest
item_forest (a_vendor attrs) others = node "vendor" attrs leaf others
item_forest (a_command attrs req ans) others =
    node "command" attrs (rules_forest "requestrules" req (rules_forest "answerrules" ans leaf))
      others
item_forest (a_type attrs) others = node "typedefn" attrs leaf others
item_forest (an_avp attrs body) others = node "avp" attrs (body_forest body) others

unfoldable pub items_forest : List Item → Forest
items_forest [] = leaf
items_forest (i ∷ is) = item_forest i (items_forest is)

unfoldable pub sections_forest : List Section → Forest
unfolding items_forest
sections_forest [] = leaf
sections_forest (stray item ∷ others) = item_forest item (sections_forest others)
sections_forest (the_base attrs items ∷ others) =
    node "base" attrs (items_forest items) (sections_forest others)
sections_forest (an_application attrs items ∷ others) =
    node "application" attrs (items_forest items) (sections_forest others)

-- The last `type-name` counts.
abbrev pub type_name_of : List Attr → Option String → Option String
type_name_of [] old = old
type_name_of ((key, value) ∷ attrs) old =
    type_name_of attrs (if same key "type-name" then some value else old)

abbrev pub with_app : Dict → App → Dict
with_app d app = record d { apps = d.apps ++ (app ∷ []) }

module _ (c : Libc) (junk : Junk) where
  abbrev pub values_of : List (List Attr) → Content
  values_of [] = no_content
  values_of (v ∷ vs) = enums (new_enum c junk v ∷ map (new_enum c junk) vs)

  abbrev pub described : DictAvp → AvpBody → DictAvp
  described a (typed attrs values) = record a {
    type_name = type_name_of attrs a.type_name;
    content = values_of values;
  }
  described a (group members) = record a {
    type_name = some "grouped";
    content = rules (map (new_rule c) members);
  }

  abbrev pub with_rules : Cmd → (req ans : List (List Attr)) → Cmd
  with_rules cmd req ans = record cmd {
    req_rules = map (new_rule c) req;
    ans_rules = map (new_rule c) ans;
  }

  -- What an item adds to the dictionary, in an application. A type is added if its name is new.
  abbrev pub add_item : Option ℕ → Dict → Item → Run Dict
  add_item app d (a_vendor attrs) =
      ok (record d { vendors = d.vendors ++ (new_vendor c junk attrs ∷ []) })
  add_item app d (a_command attrs req ans) =
      ok (record d { cmds = d.cmds ++ (with_rules (new_cmd c junk attrs) req ans ∷ []) })
  add_item app d (a_type attrs) = dict_add_avp_type d (new_type attrs) >>= λ r. ok r.1
  add_item app d (an_avp attrs body) =
      ok (record d { avps = d.avps ++ (described (new_avp c app attrs) body ∷ []) })

  unfoldable pub add_items : Option ℕ → Dict → List Item → Run Dict
  add_items app d [] = ok d
  add_items app d (i ∷ is) = add_item app d i >>= λ d'. add_items app d' is

  -- What a document adds: each section its application and its items. An item outside of them
  -- belongs to the application before it.
  unfoldable pub add_sections : Option ℕ → Dict → List Section → Run Dict
  unfolding add_items
  add_sections app d [] = ok d
  add_sections app d (stray item ∷ others) =
      add_item app d item >>= λ d'. add_sections app d' others
  add_sections app d (the_base attrs items ∷ others) =
      add_items (some (length d.apps)) (with_app d (new_base attrs)) items >>= λ d'.
      add_sections (some (length d.apps)) d' others
  add_sections app d (an_application attrs items ∷ others) =
      add_items (some (length d.apps)) (with_app d (new_app c attrs)) items >>= λ d'.
      add_sections (some (length d.apps)) d' others
