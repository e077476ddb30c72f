-- ===== src/Tests/Files.antt =====
-- dict.c on a small file.
use zdia.Prelude.{
  ℕ, ◌≡◌, ◌≢◌, inl, refl, none, some, List, [], ◌∷◌, ◌++◌, arith, ok, fault, true, false, replicate,
  length, length-append, get_elem?, IfOk,
}
use zdia.Array
use zdia.Array.{Array, fresh}
use zdia.Memory.{Memory, zd_malloc}
use zdia.Dict.{get_avp}
use zdia.Dict.Text.{Libc, codes}
use zdia.Dict.Types.{Dict, AvpType, integer64}
use zdia.Dict.Add.{dict_add_avp_type, dict_new}
use zdia.Dict.Xml.{Cursor, ParseInfo, xml_elem_start, handle}
use zdia.Dict.Xml.Attrs.{Junk, new_base, new_type, new_avp, new_cmd, new_rule}
use zdia.Dict.Load.{
  XmlEvent, starts, ends, text, parsed, read_error, Source, on_event, on_events, read_loop,
  dict_add_dict, load_files,
}
use zdia.Dict.Load.Path.{IsPath, xml_elem_start-short}
use zdia.Dict.Load.Short.{CopiesText}
use zdia.Heap.{zd_free}
use zdia.Dict.Build.{dict_build}
use zdia.Dict.Load.Trees.{events_of, tags, handle_all}
use zdia.Dict.Load.Safe.{loaded-vendors}
use zdia.Dict.Load.Document.{
  Section, stray, the_base, a_command, a_type, an_avp, typed, group, sections_forest, add_sections,
}
use zdia.Dict.Load.Whole.{rounds_of, joined, dict_add_dict-IsBuilt}
use zdia.Tests.Libc.{libc, libc-IsLawful, libc-Grants, limit}
use zdia.Dict.Build.Whole.{IsBuilt}
use zdia.Tests.Dictionaries.{
  unbuilt, unbuilt-IsReady, octets, in_place, in_place-IsSorting, host_avp,
}

-- Copies of a name with its terminating zero, copies with eight bytes behind the name, as an
-- allocator that rounds sizes up leaves them readable, and copies of a name of one letter.
abbrev pub exact : Libc
exact = record { strdup = λ s. codes s ++ (0 ∷ []); atoi = λ s. length (codes s) }

pub exact-CopiesText : CopiesText exact
exact-CopiesText name = length-append (codes name) (0 ∷ [])

abbrev roomy : Libc
roomy = record { strdup = λ s. codes s ++ replicate 8 0; atoi = λ s. length (codes s) }

abbrev tight : Libc
tight = record { strdup = λ s. 65 ∷ 0 ∷ []; atoi = λ s. 0 }

abbrev pub junk : Junk
junk = record {
  vendor = record { id = 9; name = none };
  cmd = record { code = 9; name = none; proxiable = 9; req_rules = []; ans_rules = []; app = none };
  enum = record { code = 9; name = none };
}

abbrev pub stack : ParseInfo
stack = record {
  path = record {
    elem_size = 0;
    capacity = 0;
    size = 0;
    cmp = none;
    data_block = record { addr = 0; bytes = [] };
  };
  cursor = record {
    dict = dict_new;
    curr_app = none;
    curr_cmd = none;
    curr_avp = none;
    curr_rules = none;
  };
}

-- A file with an AVP, its type, a group, and a command without requests.
abbrev sections : List Section
sections =
    the_base [] (
      a_type (("type-name", "Name") ∷ ("type-parent", "OctetString") ∷ [])
      ∷ an_avp (("name", "Group") ∷ ("code", "1000") ∷ [])
          (group ((("name", "Host") ∷ ("position", "first") ∷ ("min", "1") ∷ []) ∷ []))
      ∷ [])
    ∷ stray
        (an_avp (("name", "Host") ∷ ("code", "264") ∷ []) (typed (("type-name", "Name") ∷ []) []))
    ∷ stray (
        a_command (("name", "Hello") ∷ ("code", "257") ∷ [])
          ((("name", "Host") ∷ ("position", "first") ∷ ("min", "1") ∷ []) ∷ []) [])
    ∷ []

abbrev only_octets : Dict
only_octets = record { apps = []; vendors = []; cmds = []; avps = []; types = octets ∷ [] }

-- The parser reports the start of the file first, and then the rest of it.
abbrev head_events : List XmlEvent
head_events = text "\n" ∷ starts "dictionary" [] ∷ text "\n  " ∷ []

abbrev tail_events : List XmlEvent
tail_events = events_of (sections_forest sections) (text "\n" ∷ ends "dictionary" ∷ [])

dict_add_dict-IsBuilt_example :
    (cur : Cursor) × (b : Dict) × (handle_all exact junk
        (record stack.cursor { dict = only_octets })
        (joined head_events (tail_events ∷ []))
      ≡ ok cur)
    × (dict_build in_place 2 cur.dict ≡ ok b)
    × IsBuilt in_place unbuilt b
    × ((m : Memory)
        → IfOk
            (λ r. r ≡ (0, b))
            (dict_add_dict m exact junk in_place 2 only_octets stack (record {
              created = true;
              opened = true;
              rounds = rounds_of head_events (tail_events ∷ []);
            })))
unfolding add_sections events_of tags dict_add_avp_type new_base new_type new_avp new_cmd new_rule
    sections_forest
dict_add_dict-IsBuilt_example =
    dict_add_dict-IsBuilt exact junk in_place 2 in_place-IsSorting only_octets unbuilt stack
      sections head_events (tail_events ∷ []) refl refl unbuilt-IsReady

-- A file that cannot be read after its first AVP, and one that cannot be opened.
abbrev broken_file : Source
broken_file = record {
  created = true;
  opened = true;
  rounds = parsed (starts "avp" (("name", "Host") ∷ []) ∷ []) true false ∷ read_error ∷ [];
}

abbrev no_file : Source
no_file = record { created = true; opened = false; rounds = [] }

abbrev loaded : Dict
loaded = record dict_new { avps = record host_avp { code = 0; app = none; type_name = none } ∷ [] }

loaded-vendors_example :
    ((code vendor : ℕ) → vendor ≢ 0 → get_avp loaded code vendor ≡ none)
    × ((slot : ℕ) (t : AvpType) → get_elem? loaded.types slot ≡ some t → t.codec ≢ integer64)
unfolding load_files dict_add_dict read_loop on_events on_event xml_elem_start handle Array.init
    zd_free zd_malloc Array.push_back new_avp dict_new
loaded-vendors_example =
    loaded-vendors libc roomy junk in_place in_place-IsSorting 9
      ((stack, broken_file) ∷ (stack, no_file) ∷ []) loaded refl

empty-IsPath : IsPath (fresh 8 (record { addr = 1; bytes = replicate 32 0 })) 0
empty-IsPath = record { valid = omega arith; pointers = refl; size = refl; capacity = inl refl }

xml_elem_start-short_example :
    xml_elem_start tight junk libc
      (record stack { path = fresh 8 (record { addr = 1; bytes = replicate 32 0 }) })
      "avp"
      []
    ≡ fault
xml_elem_start-short_example =
    xml_elem_start-short libc libc-IsLawful limit libc-Grants (omega arith) tight junk
      (record stack { path = fresh 8 (record { addr = 1; bytes = replicate 32 0 }) }) "avp" [] 0
      empty-IsPath (omega arith)
