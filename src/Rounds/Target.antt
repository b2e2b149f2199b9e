-- ===== src/Rounds/Target.antt =====
-- The addresses that the STATUS round probes: `parse_status_socket_addr` and
-- `resolve_status_addr_with` of shared/config-validation/src/lib.rs, and the probes of
-- firmware/src/net.rs. How Rust's standard library reads a socket address, the resolver and the
-- outcome of a connection are parameters.
use m5stack_pc_remote.Base.{Bool, true, false, ◌||◌, Option, none, some, List, [], ◌∷◌}
use m5stack_pc_remote.Base.Text.{Text, trim}

-- The outcome of `TcpStream::connect_timeout`.
pub data Connection : Type 0 where
  connected refused failed : Connection

-- `probe`: a refusal shows that the PC is there.
unfoldable pub probe : Connection → Bool
probe connected = true
probe refused = true
probe failed = false

module _ {Addr : Type 0} where
  unfoldable pub parse_status_socket_addr : (Text → Option Addr) → Text → Option Addr
  parse_status_socket_addr parse addr_text = parse (trim addr_text)

  -- An address, or the calls of the resolver and its answer.
  unfoldable pub resolve_status_addr_with :
      (Text → Option Addr) → Text → (Text → List Addr) → List Addr
  resolve_status_addr_with parse addr_text resolve_hostname = elim (parse (trim addr_text)) [
    | some addr ↦ addr ∷ []
    | none ↦ resolve_hostname (trim addr_text)
  ]

  unfoldable pub check_pc_online_cached : List Addr → (Addr → Connection) → Bool
  check_pc_online_cached [] connect = false
  check_pc_online_cached (addr ∷ addrs) connect =
      probe (connect addr) || check_pc_online_cached addrs connect
