-- ===== src/Heart.antt =====
-- gpf/controller/heartmonitor.{hpp,cpp}: the class `heart`, which an engine runs in a thread of its own.
-- A message is the list of its frames. Boost's generator of names and the functions that the parser of
-- URLs relies on are parameters.
pub mod Echo
pub mod Loop
use gpf.Prelude.{
  [], ℕ, suc, ℤ, String, Bool, true, false, Option, none, some, List, ◌∷◌, ◌==◌, ◌&&◌,
  if◌then◌else◌,
}
use gpf.Url.{Bytes, validate_url}
use gpf.Monitor.{Monitor, handle_pong}

pub record Heart : Type 0 where
  pub id : String
  pub in_addr : Bytes
  pub out_addr : Bytes
  pub count : ℕ
  -- what `operator()` gives to the socket of pongs as its identity
  pub identity : Option String

-- The constructor.
unfoldable pub heart : Bytes → Bytes → String → Heart
heart in_addr out_addr id = record {
  id = id;
  in_addr = in_addr;
  out_addr = out_addr;
  count = 0;
  identity = none;
}

-- `operator()` up to its loop; `none` where a logging macro ends the program, as an address is no URL.
-- `uuid` is what the generator of names returns.
unfoldable pub start : (ℕ → ℕ) → (Bytes → Option ℤ) → String → Heart → Option Heart
unfolding validate_url
start tolower lexical_cast uuid h =
    if validate_url tolower lexical_cast h.out_addr && validate_url tolower lexical_cast h.in_addr
    then (let id : String = if h.id == "" then uuid else h.id in
        some (record h { id = id; identity = some id }))
    else none

-- `bumm`: a ping has come in. The pong goes out if the socket for it still exists (`open`).
unfoldable pub bumm : Bool → List String → Heart → Heart × Option (List String)
bumm true ping h = (record h { count = suc h.count }, some (h.id ∷ ping))
bumm false ping h = (h, none)

-- The monitor's reading of a pong, in `heartmonitor::handle_pong`: the first two frames. `none` is the
-- exception if there are fewer.
unfoldable pub receive_pong :
    {S : Type 0} → (ℕ → String) → List String → Monitor S → Option (Monitor S)
receive_pong to_iso_string [] m = none
receive_pong to_iso_string (heart ∷ []) m = none
receive_pong to_iso_string (heart ∷ received ∷ frames) m =
    some (handle_pong to_iso_string heart received m)
