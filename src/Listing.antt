-- ===== src/Listing.antt =====
-- test.c: the loops of `main` over the dictionary. A line is a call of `fprintf` with its arguments;
-- a null `char *` is passed to it as it is.
pub mod Decides
pub mod Rules
pub mod Shown
pub mod Built
use Prim.Native.String.{String}
use zdia.Prelude.{
  ℕ, Bool, true, false, Option, none, some, List, [], ◌∷◌, ◌++◌, map, Run, ok, fault, ◌>>=◌,
  non_null, get_elem?,
}
use zdia.Dict.Text.{same_text}
use zdia.Dict.Types.{
  Dict, App, Vendor, Cmd, DictAvp, AvpRule, AvpType, EnumValue, Codec, Content, no_content, enums,
  rules,
}

pub data Line : Type 0 where
  heading : String → Line
  app_line : (id : ℕ) (name uri : Option String) → Line
  vendor_line : (id : ℕ) (name : Option String) → Line
  cmd_line : (proxiable : ℕ) (name : Option String) (code : ℕ) → Line
  rule_line : (avp_name : Option String) (min max code vendor_id : ℕ) → Line
  avp_line : (name : Option String) (code : ℕ) (type_name : Option String) → Line
  sub_avp_line : (avp_name : Option String) (min max : ℕ) → Line
  enum_line : (name : Option String) (code : ℕ) → Line
  type_line : (name parent_name : Option String) (codec : Codec) → Line

-- A loop that prints some lines for each element.
unfoldable pub lines_of {ℓ} : {A : Type ℓ} → (A → Run (List Line)) → List A → Run (List Line)
lines_of f [] = ok []
lines_of f (x ∷ xs) = f x >>= λ here. lines_of f xs >>= λ later. ok (here ++ later)

-- `rule[j].avp->code` and `rule[j].avp->vendor_id`
unfoldable pub rule_lines : List DictAvp → AvpRule → Run (List Line)
rule_lines avps rule = do
  slot ← non_null rule.avp
  avp ← non_null (get_elem? avps slot)
  ok (rule_line rule.avp_name rule.min rule.max avp.code avp.vendor_id ∷ [])

unfoldable pub cmd_lines : List DictAvp → Cmd → Run (List Line)
unfolding rule_lines lines_of
cmd_lines avps cmd = do
  req ← lines_of (rule_lines avps) cmd.req_rules
  ans ← lines_of (rule_lines avps) cmd.ans_rules
  ok (
      cmd_line cmd.proxiable cmd.name cmd.code
      ∷ heading "request avps"
      ∷ (req ++ (heading "answer avps" ∷ ans)))

abbrev pub sub_lines : AvpRule → Line
sub_lines rule = sub_avp_line rule.avp_name rule.min rule.max

abbrev pub enum_lines : EnumValue → Line
enum_lines e = enum_line e.name e.code

-- The union is read as rules where the type is `grouped`, and as enumerated values elsewhere. A null
-- pointer to rules is a fault, and so is an array of the union's other kind, as in `dict_build`.
abbrev pub content_lines : Bool → Content → Run (List Line)
content_lines true no_content = fault
content_lines true (enums es) = fault
content_lines true (rules rs) = ok (heading "sub avps" ∷ map sub_lines rs)
content_lines false no_content = ok []
content_lines false (enums es) = ok (heading "enums" ∷ map enum_lines es)
content_lines false (rules rs) = fault

unfoldable pub avp_lines : DictAvp → Run (List Line)
avp_lines avp = do
  is_group ← same_text (some "grouped") avp.type_name
  content ← content_lines is_group avp.content
  ok (avp_line avp.name avp.code avp.type_name ∷ content)

abbrev pub page : Dict → List Line → List Line → List Line
page dict cmds avps =
    heading "application"
    ∷ (map (λ a. app_line a.id a.name a.uri) dict.apps
        ++ (heading "vendor"
            ∷ (map (λ v. vendor_line v.id v.name) dict.vendors
                ++ (heading "command"
                    ∷ (cmds
                        ++ (heading "avp"
                            ∷ (avps
                                ++ (heading "type"
                                    ∷ map (λ t. type_line t.name t.parent_name t.codec)
                                        dict.types))))))))

-- What `main` prints after `server_start`.
unfoldable pub listing : Dict → Run (List Line)
unfolding lines_of cmd_lines avp_lines
listing dict = do
  cmds ← lines_of (cmd_lines dict.avps) dict.cmds
  avps ← lines_of avp_lines dict.avps
  ok (page dict cmds avps)
