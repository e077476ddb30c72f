-- ===== src/Tests/Program.antt =====
-- test.c's main on a small file.
use zdia.Prelude.{fault, ℕ, ◌≡◌, refl, none, some, List, [], ◌∷◌, ok, pos}
use zdia.Dict.Types.{Cmd, Dict, DictAvp}
use zdia.Dict.Add.{base_types}
use zdia.Dict.Load.{XmlEvent, starts, ends, text}
use zdia.Listing.{
  heading, app_line, cmd_line, rule_line, avp_line, lines_of, rule_lines, cmd_lines, avp_lines,
  listing,
}
use zdia.Main.{Undefined}
use zdia.Tests.Dictionaries.{host_rule, host_avp, described}
use zdia.Tests.Files.{stack}
use zdia.Tests.Systems.{Desk}
use zdia.Server.{Server, Worker}

abbrev host_octets : DictAvp
host_octets = record host_avp { type_name = some "OctetString" }

abbrev filled : Dict
filled = record described { avps = host_octets ∷ []; types = base_types }

abbrev undefined : Undefined
undefined = record {
  dict = none;
  conn = record { sock = pos 0; family = 0; protocol = 0 };
  rest = [];
  stack = stack;
}

abbrev idle_worker : Worker
idle_worker = record { id = 0; status = 1; queue = [] }

abbrev four_idle : List Worker
four_idle = idle_worker ∷ idle_worker ∷ idle_worker ∷ idle_worker ∷ []

abbrev with_threads : ℕ → Desk
with_threads n = record { fds = []; last = 2; threads = n }

abbrev the_server : Server
the_server = record { dict = none; workers = four_idle; curr_worker = 0 }

-- The start of dictionary.xml, in two pieces.
abbrev first_events : List XmlEvent
first_events = starts "dictionary" [] ∷ text "\n  " ∷ []

abbrev vendor_events : List XmlEvent
vendor_events =
    text "\n  "
    ∷ starts "vendor" (("id", "61") ∷ ("name", "Merit Networks") ∷ [])
    ∷ ends "vendor"
    ∷ []

-- Before the dictionary is built, the rule of its command points nowhere.
filled-listing : listing filled ≡ fault
unfolding listing lines_of cmd_lines rule_lines
filled-listing = refl

abbrev first_cmd : Cmd
first_cmd = record {
  code = 3;
  name = some "Hello";
  proxiable = 1;
  req_rules = [];
  ans_rules = [];
  app = none;
}

-- The built command's rule points to the AVP that it names.
bound_listing :
    listing (record filled {
      cmds = record first_cmd { req_rules = record host_rule { avp = some 0 } ∷ [] } ∷ [];
      types = [];
    })
    ≡ ok (
        heading "application"
        ∷ app_line 0 (some "base") none
        ∷ heading "vendor"
        ∷ heading "command"
        ∷ cmd_line 1 (some "Hello") 3
        ∷ heading "request avps"
        ∷ rule_line (some "Host") 1 1 3 0
        ∷ heading "answer avps"
        ∷ heading "avp"
        ∷ avp_line (some "Host") 3 (some "OctetString")
        ∷ heading "type"
        ∷ [])
unfolding listing lines_of cmd_lines rule_lines avp_lines
bound_listing = refl
