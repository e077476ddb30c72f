-- ===== src/System.antt =====
-- The operating system's calls that conn.c, tcp.c, worker.c, receiver.c and server.c make, over a state
-- of its own. A descriptor is an `int`: a negative one is an error.
use zdia.Prelude.{
  ◌⊎◌, ℕ, ◌≡◌, Bool, true, false, List, [], ◌∷◌, ℤ, pos, negsuc, ◌==◌, if◌then◌else◌,
}
use zdia.Bytes.{Bytes}

-- A socket address, as far as the source looks at it: its `sa_family`, and what else it holds.
pub record Address : Type 0 where
  pub family : ℕ
  pub rest : List ℕ

-- SO_REUSEADDR, and SO_SNDTIMEO in microseconds.
pub data SockOpt : Type 0 where
  so_reuseaddr : ℕ → SockOpt
  so_sndtimeo : ℕ → SockOpt

-- The functions that threads are started with.
pub data Routine : Type 0 where
  worker_routine receiver_routine server_routine : Routine

-- `socket` (of type SOCK_STREAM) takes the family, and `bind` the length of the address too. A call
-- that returns a status says whether it succeeded; `pthread_create` returns an error number.
pub record System (Os : Type 0) : Type 0 where
  pub socket : Os → ℕ → ℤ × Os
  pub setsockopt : Os → ℤ → SockOpt → Bool × Os
  pub bind : Os → ℤ → Address → ℕ → Bool × Os
  pub listen : Os → ℤ → ℕ → Bool × Os
  pub accept : Os → ℤ → ℤ × Os
  pub send : Os → ℤ → Bytes → ℤ × Os
  pub shutdown : Os → ℤ → Os
  pub close : Os → ℤ → Os
  pub pthread_create : Os → Routine → ℕ × Os
  pub pthread_join : Os → Os

abbrev pub is_negative : ℤ → Bool
is_negative (pos n) = false
is_negative (negsuc n) = true

abbrev pub is_zero : ℤ → Bool
is_zero (pos n) = n == 0
is_zero (negsuc n) = false

abbrev pub same_int : ℤ → ℤ → Bool
same_int (pos m) (pos n) = m == n
same_int (pos m) (negsuc n) = false
same_int (negsuc m) (pos n) = false
same_int (negsuc m) (negsuc n) = m == n

-- The table without a descriptor.
abbrev pub without : ℤ → List ℤ → List ℤ
without fd [] = []
without fd (x ∷ xs) = let rest = without fd xs in if same_int fd x then xs else x ∷ rest

-- The table with what a call returned, if that is a descriptor.
abbrev pub opening : ℤ → List ℤ → List ℤ
opening (pos n) fds = pos n ∷ fds
opening (negsuc n) fds = fds

-- Descriptor 0, the standard input, is open.
abbrev pub HasZero : List ℤ → Type 0
HasZero [] = ⊥
HasZero (fd ∷ fds) = (is_zero fd ≡ true) ⊎ HasZero fds

-- The table of open sockets, as documented: `socket` and `accept` add one unless they fail, `close`
-- takes one away, and the others leave the table alone. `accept` does not return a descriptor that is
-- open already, which is said of descriptor 0 only.
pub record HasTable {Os : Type 0} (s : System Os) (table : Os → List ℤ) : Type 0 where
  pub socket :
      (os : Os) (family : ℕ)
      → table (s.socket os family).1 ≡ opening (s.socket os family).0 (table os)
  pub setsockopt : (os : Os) (fd : ℤ) (o : SockOpt) → table (s.setsockopt os fd o).1 ≡ table os
  pub bind : (os : Os) (fd : ℤ) (a : Address) (n : ℕ) → table (s.bind os fd a n).1 ≡ table os
  pub listen : (os : Os) (fd : ℤ) (n : ℕ) → table (s.listen os fd n).1 ≡ table os
  pub accept : (os : Os) (fd : ℤ) → table (s.accept os fd).1 ≡ opening (s.accept os fd).0 (table os)
  pub accept_new : (os : Os) (fd : ℤ) → is_zero (s.accept os fd).0 ≡ true → HasZero (table os) → ⊥
  pub shutdown : (os : Os) (fd : ℤ) → table (s.shutdown os fd) ≡ table os
  pub close : (os : Os) (fd : ℤ) → table (s.close os fd) ≡ without fd (table os)
  pub pthread_create : (os : Os) (r : Routine) → table (s.pthread_create os r).1 ≡ table os
