-- ===== src/Dict/Load/Reading.antt =====
-- dict.c: what the handlers make of the sections of a document.
use zdia.Prelude.{
  ℕ, ◌≡◌, refl, ap, ◌∙◌, Option, some, List, [], ◌∷◌, ◌++◌, map, Run, ok, length, bind_parts, arith,
}
use zdia.Dict.Text.{Libc}
use zdia.Dict.Add.{dict_add_app, dict_add_cmd, dict_add_avp, dict_add_vendor, dict_add_avp_type}
use zdia.Dict.Types.{Dict, Cmd, DictAvp, AvpRule, no_content}
use zdia.Dict.Xml.{Cursor, Rules, request_rules, answer_rules, avprule, push_rule, handle}
use zdia.Dict.Xml.Attrs.{
  Attr, Junk, fill, new_base, new_app, new_vendor, new_cmd, new_rule, new_avp, new_type, avp_attr,
  cmd_attr,
}
use zdia.Dict.Load.Trees.{Forest, leaf, visit}
use zdia.Dict.Load.Document.{
  Item, a_vendor, a_command, a_type, an_avp, Section, stray, the_base, an_application, row,
  rules_forest, with_rules, item_forest, items_forest, sections_forest, described, add_item,
  add_items, with_app, add_sections,
}
use zdia.Dict.Load.Items.{change-last, visit-row, at_avp, at_cmd, rules_after, visit-body}

-- What no attribute changes stays as it was.
fill_keeps {ℓ κ} :
    {A : Type ℓ} {B : Type κ} (f : A → Attr → A) (p : A → B)
    → ((a : A) (attr : Attr) → p (f a attr) ≡ p a)
    → (a : A) (attrs : List Attr) → p (fill f a attrs) ≡ p a
fill_keeps f p keep a [] = refl
fill_keeps f p keep a (attr ∷ attrs) = fill_keeps f p keep (f a attr) attrs ∙ keep a attr

ok_inj {ℓ} : {A : Type ℓ} {x y : A} → ◌≡◌ {A = Run A} (ok x) (ok y) → x ≡ y
ok_inj e = cc

module _ (c : Libc) (junk : Junk) where
  new_avp-content :
      (app : Option ℕ) (attrs : List Attr) → (new_avp c app attrs).content ≡ no_content
  unfolding new_avp avp_attr
  new_avp-content app attrs =
      fill_keeps _ (λ (a : DictAvp). a.content) (λ a (key, value). ground arith) _ attrs

  new_cmd-req : (attrs : List Attr) → (new_cmd c junk attrs).req_rules ≡ []
  unfolding new_cmd cmd_attr
  new_cmd-req attrs =
      fill_keeps _ (λ (x : Cmd). x.req_rules) (λ a (key, value). ground arith) _ attrs

  new_cmd-ans : (attrs : List Attr) → (new_cmd c junk attrs).ans_rules ≡ []
  unfolding new_cmd cmd_attr
  new_cmd-ans attrs =
      fill_keeps _ (λ (x : Cmd). x.ans_rules) (λ a (key, value). ground arith) _ attrs

  module _ (cur : Cursor) (cmds : List Cmd) where
    abbrev at_request : Cmd → List AvpRule → Cursor
    at_request cmd rs = record (at_cmd cur cmds (record cmd { req_rules = rs })) {
      curr_rules = some (request_rules (length cmds));
    }

    abbrev at_answer : Cmd → List AvpRule → Cursor
    at_answer cmd rs = record (at_cmd cur cmds (record cmd { ans_rules = rs })) {
      curr_rules = some (answer_rules (length cmds));
    }

    request-step :
        (cmd : Cmd) (rs : List AvpRule) (attrs : List Attr)
        → handle c junk (at_request cmd rs) avprule attrs
          ≡ ok (at_request cmd (rs ++ (new_rule c attrs ∷ [])))
    unfolding handle push_rule
    request-step cmd rs attrs =
        rw
          (change-last
            (λ (x : Cmd). ok (record x { req_rules = x.req_rules ++ (new_rule c attrs ∷ []) })) cmds
            (record cmd { req_rules = rs })
            (record cmd { req_rules = rs ++ (new_rule c attrs ∷ []) }) refl)
          refl

    answer-step :
        (cmd : Cmd) (rs : List AvpRule) (attrs : List Attr)
        → handle c junk (at_answer cmd rs) avprule attrs
          ≡ ok (at_answer cmd (rs ++ (new_rule c attrs ∷ [])))
    unfolding handle push_rule
    answer-step cmd rs attrs =
        rw
          (change-last
            (λ (x : Cmd). ok (record x { ans_rules = x.ans_rules ++ (new_rule c attrs ∷ []) })) cmds
            (record cmd { ans_rules = rs })
            (record cmd { ans_rules = rs ++ (new_rule c attrs ∷ []) }) refl)
          refl

    -- The children of a command, whatever `curr_rules` is left at.
    visit-answers :
        (cmd : Cmd) (old : Option Rules) (ans : List (List Attr))
        → cmd.ans_rules ≡ []
        → (k : Option Rules) × (visit c junk
              (rules_forest "answerrules" ans leaf)
              (record (at_cmd cur cmds cmd) { curr_rules = old })
            ≡ ok (record (at_cmd cur cmds (record cmd { ans_rules = map (new_rule c) ans })) {
              curr_rules = k;
            }))
    unfolding visit handle
    visit-answers cmd old [] none_yet = (
      old,
      ap (λ rs. ok (record (at_cmd cur cmds (record cmd { ans_rules = rs })) { curr_rules = old }))
          none_yet,
    )
    visit-answers cmd old (attrs ∷ ans) none_yet = (
      some (answer_rules (length cmds)),
      rw
          (ap (λ rs. visit c junk (row "avprule" (attrs ∷ ans) leaf) (at_answer cmd rs)) none_yet
            ∙ visit-row c junk "avprule" (at_answer cmd) (new_rule c) (answer-step cmd)
                (attrs ∷ ans) [] leaf)
          refl,
    )

    visit-rules :
        (cmd : Cmd) (req ans : List (List Attr))
        → cmd.req_rules ≡ []
        → cmd.ans_rules ≡ []
        → (k : Option Rules) × (visit c junk
              (rules_forest "requestrules" req (rules_forest "answerrules" ans leaf))
              (at_cmd cur cmds cmd)
            ≡ ok (record (at_cmd cur cmds (with_rules c junk cmd req ans)) { curr_rules = k }))
    unfolding visit handle
    visit-rules cmd [] ans no_req no_ans =
        let (k, ran) = visit-answers cmd cur.curr_rules ans no_ans in
        (
          k,
          ran
              ∙ ap
                  (λ rs.
                    ok
                      (record (at_cmd cur cmds
                        (record cmd { req_rules = rs; ans_rules = map (new_rule c) ans })) {
                          curr_rules = k;
                        }))
                  no_req,
        )
    visit-rules cmd (attrs ∷ req) ans no_req no_ans =
        let with_req : Cmd = record cmd { req_rules = map (new_rule c) (attrs ∷ req) } in
        let (k, ran) = visit-answers with_req (some (request_rules (length cmds))) ans no_ans in
        (
          k,
          rw
              (ap (λ rs. visit c junk (row "avprule" (attrs ∷ req) leaf) (at_request cmd rs)) no_req
                ∙ visit-row c junk "avprule" (at_request cmd) (new_rule c) (request-step cmd)
                    (attrs ∷ req) [] leaf)
              ran,
        )

  -- What is left after an item, whatever its children changed.
  abbrev AfterItem : Cursor → Dict → Forest → Forest → Type 0
  AfterItem cur d f others =
      (cur' : Cursor) × (visit c junk f cur ≡ visit c junk others cur')
      × (cur'.dict ≡ d)
      × (cur'.curr_app ≡ cur.curr_app)

  visit-item :
      (cur : Cursor) (d : Dict) (i : Item) (others : Forest)
      → add_item c junk cur.curr_app cur.dict i ≡ ok d
      → AfterItem cur d (item_forest i others) others
  unfolding visit handle dict_add_vendor dict_add_cmd dict_add_avp
  visit-item cur d (a_vendor attrs) others e = (
    record cur { dict = dict_add_vendor cur.dict (new_vendor c junk attrs) },
    refl,
    ok_inj e,
    refl,
  )
  visit-item cur d (a_command attrs req ans) others e =
      let (k, ran) =
        visit-rules cur cur.dict.cmds (new_cmd c junk attrs) req ans (new_cmd-req attrs)
          (new_cmd-ans attrs) in
      (
        record (at_cmd cur cur.dict.cmds (with_rules c junk (new_cmd c junk attrs) req ans)) {
          curr_rules = k;
        },
        rw ran refl,
        ok_inj e,
        refl,
      )
  visit-item cur d (a_type attrs) others e =
      let ((slot, d1), added, e1) =
        bind_parts (dict_add_avp_type cur.dict (new_type attrs)) _ d e in
      (record cur { dict = d1 }, rw added refl, ok_inj e1, refl)
  visit-item cur d (an_avp attrs body) others e =
      let a = new_avp c cur.curr_app attrs in
      (
        record (at_avp cur cur.dict.avps (described c junk a body)) {
          curr_rules = rules_after c junk cur cur.dict.avps body;
        },
        rw (visit-body c junk cur cur.dict.avps a body (new_avp-content cur.curr_app attrs)) refl,
        ok_inj e,
        refl,
      )

  visit-items :
      (cur : Cursor) (d : Dict) (is : List Item)
      → add_items c junk cur.curr_app cur.dict is ≡ ok d
      → (cur' : Cursor) × (visit c junk (items_forest is) cur ≡ ok cur')
        × (cur'.dict ≡ d)
        × (cur'.curr_app ≡ cur.curr_app)
  unfolding items_forest visit add_items
  visit-items cur d [] e = (cur, refl, ok_inj e, refl)
  visit-items cur d (i ∷ is) e =
      let (d1, first, rest) = bind_parts (add_item c junk cur.curr_app cur.dict i) _ d e in
      let (cur1, ran, d1_is, app_is) = visit-item cur d1 i (items_forest is) first in
      let (cur2, ran2, d_is, app2_is) = visit-items cur1 d is (rw (d1_is, app_is) rest) in
      (cur2, ran ∙ ran2, d_is, app2_is ∙ app_is)

  -- The sections of a document.
  pub visit-sections :
      (cur : Cursor) (d : Dict) (secs : List Section)
      → add_sections c junk cur.curr_app cur.dict secs ≡ ok d
      → (cur' : Cursor) × (visit c junk (sections_forest secs) cur ≡ ok cur') × (cur'.dict ≡ d)
  unfolding sections_forest visit add_sections handle dict_add_app
  visit-sections cur d [] e = (cur, refl, ok_inj e)
  visit-sections cur d (stray item ∷ secs) e =
      let (d1, first, rest) = bind_parts (add_item c junk cur.curr_app cur.dict item) _ d e in
      let (cur1, ran, d1_is, app_is) = visit-item cur d1 item (sections_forest secs) first in
      let (cur2, ran2, d_is) = visit-sections cur1 d secs (rw (d1_is, app_is) rest) in
      (cur2, ran ∙ ran2, d_is)
  visit-sections cur d (the_base attrs items ∷ secs) e =
      let start : Cursor = record cur {
        dict = with_app cur.dict (new_base attrs);
        curr_app = some (length cur.dict.apps);
      } in
      let (d1, inner, rest) = bind_parts (add_items c junk start.curr_app start.dict items) _ d e in
      let (cur1, ran, d1_is, app_is) = visit-items start d1 items inner in
      let (cur2, ran2, d_is) = visit-sections cur1 d secs (rw (d1_is, app_is) rest) in
      (cur2, rw ran ran2, d_is)
  visit-sections cur d (an_application attrs items ∷ secs) e =
      let start : Cursor = record cur {
        dict = with_app cur.dict (new_app c attrs);
        curr_app = some (length cur.dict.apps);
      } in
      let (d1, inner, rest) = bind_parts (add_items c junk start.curr_app start.dict items) _ d e in
      let (cur1, ran, d1_is, app_is) = visit-items start d1 items inner in
      let (cur2, ran2, d_is) = visit-sections cur1 d secs (rw (d1_is, app_is) rest) in
      (cur2, rw ran ran2, d_is)
