-- ===== src/Dict/Load.antt =====
-- dict.c: `dict_add_dict` reads a file into a dictionary. The XML parser and the file are expat's and
-- the C library's: a run of theirs is what they return, with the events that `XML_Parse` reports.
pub mod Safe
pub mod Path
pub mod Trees
pub mod Document
pub mod Items
pub mod Reading
pub mod Whole
pub mod Short
use Prim.Native.String.{String}
use zdia.Prelude.{
  ℕ, Bool, true, false, Option, none, some, List, [], ◌∷◌, Run, ok, out_of_fuel, ◌>>=◌,
  if◌then◌else◌, not, zero, suc,
}
use zdia.Array
use zdia.Array.{Array}
use zdia.Memory.{Memory}
use zdia.Heap.{Live}
use zdia.Dict.Text.{Libc}
use zdia.Dict.Types.{Dict}
use zdia.Dict.Build.{Sorting, dict_build}
use zdia.Dict.Xml.{ParseInfo, xml_elem_start, xml_elem_end}
use zdia.Dict.Xml.Attrs.{Attr, Junk}

-- A call of a handler; `xml_text` does nothing.
pub data XmlEvent : Type 0 where
  starts : String → List Attr → XmlEvent
  ends : String → XmlEvent
  text : String → XmlEvent

-- One round of the loop: `ferror` after `fread`, or the events of `XML_Parse`, whether it succeeds,
-- and `feof`.
pub data Round : Type 0 where
  read_error : Round
  parsed : List XmlEvent → Bool → Bool → Round

-- Whether the parser is made, whether the file opens, and the rounds.
pub record Source : Type 0 where
  pub created : Bool
  pub opened : Bool
  pub rounds : List Round

abbrev pub enomem : ℕ
enomem = 12

abbrev pub ebadfd : ℕ
ebadfd = 77

abbrev pub einval : ℕ
einval = 22

abbrev pub sizeof_pointer : ℕ
sizeof_pointer = 8

-- An uninitialised pointer owns no block, so that no block can be freed through it.
abbrev pub nothing : Live
nothing p = false

module _ (m : Memory) (c : Libc) (junk : Junk) where
  unfoldable pub on_event : ParseInfo → XmlEvent → Run ParseInfo
  unfolding xml_elem_start xml_elem_end
  on_event info (starts name attrs) = xml_elem_start c junk m info name attrs
  on_event info (ends name) = ok (xml_elem_end info)
  on_event info (text chars) = ok info

  unfoldable pub on_events : ParseInfo → List XmlEvent → Run ParseInfo
  unfolding on_event
  on_events info [] = ok info
  on_events info (e ∷ es) = on_event info e >>= λ info'. on_events info' es

  -- The loop over the file: the status, and the dictionary so far.
  unfoldable pub read_loop : ParseInfo → List Round → Run (ℕ × ParseInfo)
  unfolding on_events
  read_loop info [] = out_of_fuel
  read_loop info (read_error ∷ rounds) = ok (ebadfd, info)
  read_loop info (parsed events fine done ∷ rounds) = on_events info events >>= λ info'.
      if not fine
      then ok (einval, info')
      else if done
      then ok (0, info')
      else read_loop info' rounds

  module _ (q : Sorting) (fuel : ℕ) where
    -- The dictionary is built once the whole file is read; `parse_info` holds what the stack holds.
    unfoldable pub finish : ℕ × ParseInfo → Run (ℕ × Dict)
    unfolding dict_build
    finish (zero, info) = do d ← dict_build q fuel info.cursor.dict; ok (0, d)
    finish (suc error, info) = ok (suc error, info.cursor.dict)

    unfoldable pub dict_add_dict : Dict → ParseInfo → Source → Run (ℕ × Dict)
    unfolding read_loop finish
    dict_add_dict d stack src = do
      (path, live) ← Array.init m stack.path sizeof_pointer nothing
      let info : ParseInfo = record { path = path; cursor = record stack.cursor { dict = d } }
      if not src.created
          then ok (enomem, d)
          else if not src.opened
          then ok (ebadfd, d)
          else read_loop info src.rounds >>= finish

    -- One file after another, each with what the stack holds when it is read.
    unfoldable pub load_files : Dict → List (ParseInfo × Source) → Run Dict
    unfolding dict_add_dict
    load_files d [] = ok d
    load_files d ((stack, src) ∷ files) = dict_add_dict d stack src >>= λ r. load_files r.1 files
