-- ===== src/Main.antt =====
-- test.c: `main`, up to the point where it waits for the server's thread. It looks neither at the
-- status of `dict_add_dict` nor at that of `server_start`. The threads that it starts do not change
-- what it reads.
use Prim.Native.String.{String}
use zdia.Prelude.{ℕ, Option, some, List, [], ◌∷◌, Run, ok, ◌>>=◌}
use zdia.Memory.{Memory}
use zdia.System.{System, Address}
use zdia.Conn.Sockets.{Connection, ipproto_tcp}
use zdia.Dict.Text.{Libc}
use zdia.Dict.Types.{Dict}
use zdia.Dict.Add.{dict_new}
use zdia.Dict.Build.{Sorting}
use zdia.Dict.Xml.{ParseInfo}
use zdia.Dict.Xml.Attrs.{Junk}
use zdia.Dict.Load.{Source, dict_add_dict}
use zdia.Server.{Server}
use zdia.Server.Start.{server_new}
use zdia.Server.Accept.{server_start}
use zdia.Listing.{Line, listing}

-- AF_INET, port 3868 and INADDR_ANY, in network byte order; the rest is what the stack holds.
abbrev pub any_address : List ℕ → Address
any_address rest = record { family = 2; rest = 15 ∷ 28 ∷ 0 ∷ 0 ∷ 0 ∷ 0 ∷ rest }

-- What `main` leaves undefined: `s->dict` of a new server, a new connection, the rest of the
-- address, and the `parse_info` of `dict_add_dict`.
pub record Undefined : Type 0 where
  pub dict : Option Dict
  pub conn : Connection
  pub rest : List ℕ
  pub stack : ParseInfo

module _ {Os : Type 0} (s : System Os) (m : Memory) (c : Libc) (junk : Junk) (q : Sorting)
    (fuel : ℕ) (u : Undefined) where
  abbrev pub started : Os → Os
  started os1 = (server_start s u.conn os1 ipproto_tcp (any_address u.rest ∷ [])).1.1

  abbrev pub print_dict : Server → Os → Dict → Run (List Line × Server × Os)
  print_dict server os1 dict =
      listing dict >>= λ lines. ok (lines, record server { dict = some dict }, started os1)

  -- What is printed, the server, and the operating system.
  unfoldable pub main : Source → Os → Run (List Line × Server × Os)
  unfolding server_new dict_new dict_add_dict server_start listing
  main src os = server_new s u.dict os >>= λ r.
      dict_add_dict m c junk q fuel dict_new u.stack src >>= λ loaded. print_dict r.0 r.1 loaded.1
