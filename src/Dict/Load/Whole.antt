-- ===== src/Dict/Load/Whole.antt =====
-- dict.c: `dict_add_dict` on a file as a whole, which the parser may report in any pieces.
use zdia.Prelude.{
  arith, ◌≡◌, refl, sym, ap, true, false, List, [], ◌∷◌, ◌++◌, ◌∙◌, ok, IfOk, IfOk-bind, anything,
  ℕ, zero, suc, Run,
}
use zdia.Memory.{Memory}
use zdia.Array
use zdia.Dict.Text.{Libc}
use zdia.Dict.Types.{Dict}
use zdia.Dict.Build.{Sorting, dict_build}
use zdia.Dict.Build.Kept.{IsSorting}
use zdia.Dict.Build.Whole.{IsReady, IsBuilt, dict_build-IsBuilt}
use zdia.Dict.Xml.{ParseInfo, Cursor}
use zdia.Dict.Xml.Attrs.{Junk}
use zdia.Dict.Load.{
  XmlEvent, Round, parsed, on_events, read_loop, finish, dict_add_dict, sizeof_pointer, nothing,
}
use zdia.Dict.Load.Trees.{
  events_of, tags, handle_all, handle_all-same_tags, handle_all-visit, handle_all-append,
  on_events-handle_all,
}
use zdia.Dict.Load.Document.{Section, sections_forest, add_sections}
use zdia.Dict.Load.Reading.{visit-sections}

-- The rounds of a file that is read to its end: the events of the first, and of those behind it.
unfoldable pub rounds_of : List XmlEvent → List (List XmlEvent) → List Round
rounds_of es [] = parsed es true true ∷ []
rounds_of es (fs ∷ more) = parsed es true false ∷ rounds_of fs more

abbrev pub joined : List XmlEvent → List (List XmlEvent) → List XmlEvent
joined es [] = es
joined es (fs ∷ more) = es ++ joined fs more

ok_inj {ℓ} : {A : Type ℓ} {x y : A} → ◌≡◌ {A = Run A} (ok x) (ok y) → x ≡ y
ok_inj e = cc

module _ (c : Libc) (junk : Junk) where
  read_loop-handle_all :
      (m : Memory) (es : List XmlEvent) (more : List (List XmlEvent)) (info : ParseInfo)
      → IfOk
          (λ r. (r.0 ≡ 0) × (handle_all c junk info.cursor (joined es more) ≡ ok r.1.cursor))
          (read_loop m c junk info (rounds_of es more))
  unfolding read_loop rounds_of
  read_loop-handle_all m es [] info =
      IfOk-bind (λ info'. handle_all c junk info.cursor es ≡ ok info'.cursor) _
        (on_events m c junk info es) _ (on_events-handle_all c junk m es info)
        λ info' handled. (refl, handled)
  read_loop-handle_all m es (fs ∷ more) info =
      IfOk-bind (λ info1. handle_all c junk info.cursor es ≡ ok info1.cursor) _
        (on_events m c junk info es) (λ info1. read_loop m c junk info1 (rounds_of fs more))
        (on_events-handle_all c junk m es info)
        λ info1 handled.
          rw (handle_all-append c junk es (joined fs more) info.cursor info1.cursor handled)
            (read_loop-handle_all m fs more info1)

  module _ (q : Sorting) (fuel : ℕ) where
    -- What `dict_add_dict` leaves, where it returns.
    pub dict_add_dict-finish :
        (m : Memory) (d : Dict) (stack : ParseInfo) (es : List XmlEvent)
        (more : List (List XmlEvent)) (cur : Cursor) (b : Dict)
        → handle_all c junk (record stack.cursor { dict = d }) (joined es more) ≡ ok cur
        → dict_build q fuel cur.dict ≡ ok b
        → IfOk
            (λ r. r ≡ (0, b))
            (dict_add_dict m c junk q fuel d stack
              (record { created = true; opened = true; rounds = rounds_of es more }))
    unfolding dict_add_dict finish
    dict_add_dict-finish m d stack es more cur b handled built =
        IfOk-bind (λ _. Unit) _ (Array.init m stack.path sizeof_pointer nothing) _
          (anything (Array.init m stack.path sizeof_pointer nothing))
          λ r _.
            IfOk-bind _ _
              (read_loop m c junk (record { path = r.0; cursor = record stack.cursor { dict = d } })
                (rounds_of es more))
              (finish m c junk q fuel)
              (read_loop-handle_all m es more
                (record { path = r.0; cursor = record stack.cursor { dict = d } }))
              λ (status, info) (fine, read). ended status info fine read
      where
        ended :
            (status : ℕ) (info : ParseInfo)
            → status ≡ 0
            → handle_all c junk (record stack.cursor { dict = d }) (joined es more) ≡ ok info.cursor
            → IfOk (λ r. r ≡ (0, b)) (finish m c junk q fuel (status, info))
        ended zero info fine read =
            let same : cur ≡ info.cursor = ok_inj (sym handled ∙ read) in rw (sym same, built) refl
        ended (suc status) info fine read = absurd (ground arith)

    -- Let the parser report the whole of a file, in any pieces, with the start tags of a document of
    -- base and application sections with their vendors, commands, types and AVPs, and of items
    -- outside of them. End tags and texts are left out, as are tags that dict.c does not know. If
    -- `add_sections` makes of it the dictionary `all`, and `all` is ready as `IsReady` says, then the
    -- handlers, their path of names left out, go through the file without a fault, and `dict_build`
    -- makes of the dictionary that they leave one as `IsBuilt` says of `all`. `dict_add_dict` itself,
    -- whatever memory and whatever copies of names there are for its path, returns 0 with that
    -- dictionary if it returns.
    pub dict_add_dict-IsBuilt :
        IsSorting q
        → (d all : Dict) (stack : ParseInfo) (secs : List Section) (es : List XmlEvent)
          (more : List (List XmlEvent))
        → tags (joined es more) ≡ tags (events_of (sections_forest secs) [])
        → add_sections c junk stack.cursor.curr_app d secs ≡ ok all
        → IsReady q fuel all
        → (cur : Cursor) × (b : Dict) × (handle_all c junk
              (record stack.cursor { dict = d })
              (joined es more)
            ≡ ok cur)
          × (dict_build q fuel cur.dict ≡ ok b)
          × IsBuilt q all b
          × ((m : Memory)
              → IfOk
                  (λ r. r ≡ (0, b))
                  (dict_add_dict m c junk q fuel d stack
                    (record { created = true; opened = true; rounds = rounds_of es more })))
    unfolding handle_all
    dict_add_dict-IsBuilt sorting d all stack secs es more same_tags described ready =
        let start : Cursor = record stack.cursor { dict = d } in
        let (cur, ran, all_is) = visit-sections c junk start all secs described in
        let (b, built, as_said) = dict_build-IsBuilt q sorting fuel all ready in
        let handled : handle_all c junk start (joined es more) ≡ ok cur =
          handle_all-same_tags c junk (joined es more) (events_of (sections_forest secs) []) start
            same_tags
          ∙ handle_all-visit c junk (sections_forest secs) start cur [] ran in
        let built_here : dict_build q fuel cur.dict ≡ ok b =
          ap (dict_build q fuel) all_is ∙ built in
        (
          cur,
          b,
          handled,
          built_here,
          as_said,
          λ m. dict_add_dict-finish m d stack es more cur b handled built_here,
        )
