-- ===== src/Ctrl/Accept.antt =====
-- `ctrl_server_main` of userspace-nbd/src/ramdisk_ctrl_server.c: one connection after the other.
use ddr_direct_storage.Base.{
  ◌≤◌, ◌≡◌, refl, sym, ap, ◌∙◌, Option, some, List, [], ◌∷◌, ◌++◌, arith, append-nil, ◌>>=◌, Status,
  Bytes, length,
}
use ddr_direct_storage.Stream.{Conn, closed, at_end, recv_full}
use ddr_direct_storage.Stream.Chunks.{Carries, read_full_lem}
use ddr_direct_storage.Stream.Sending.{Open, turns}
use ddr_direct_storage.Urma.System.{System}
use ddr_direct_storage.Ctrl.Messages.{hdr_bytes}
use ddr_direct_storage.Ctrl.Server.{Scene, Turn, again, leave, stuck, serve_turn, serve_client}
use ddr_direct_storage.Ctrl.Server.Serving.{serve_turn_lem}
use ddr_direct_storage.Ctrl.Client.{request_hdr}
use ddr_direct_storage.Ctrl.Command.{
  Command, CommandFits, execute, payload_of, length-payload_of, perform_lem,
}
use ddr_direct_storage.Ctrl.Remote.{
  command_hdr, request, command_hdr-HdrFits, command_hdr_good, execute-Accepts,
}

-- What `accept` finds, while `running` is set: no connection, or one, with what each turn of its loop
-- meets.
pub data Caller : Type 0 where
  nobody : Caller
  client : List Scene → Conn → Caller

-- How the last connection was left, and the state. At the end of the list `running` is not set.
unfoldable pub ctrl_server_main : List Caller → System → Option (Turn × System)
ctrl_server_main [] s = some (leave, s)
ctrl_server_main (nobody ∷ callers) s = ctrl_server_main callers s
ctrl_server_main (client scenes conn ∷ callers) s = do
  (t, s', conn') ← serve_client scenes s conn
  elim t [
    | leave ↦ ctrl_server_main callers s'
    | again ↦ some (again, s')
    | stuck ↦ some (stuck, s')
  ]

-- At the end of the input the connection is left.
serve_turn_end :
    (scene : Scene) (s : System) (conn : Conn)
    → Carries conn.input []
    → serve_turn scene s conn ≡ some (leave, s, (recv_full conn 24).1)
unfolding serve_turn recv_full
serve_turn_end scene s conn (calm, e) =
    let ends : (recv_full conn 24).0 ≡ closed =
      (read_full_lem conn.input 24 calm).1 (omega (arith, ap length e)) ∙ ap at_end e in
    rw (serve_turn, ends) refl

-- A client that sends one request and closes the connection.
pub record Visit : Type 0 where
  pub scene : Scene
  pub last : Scene
  pub command : Command
  pub conn : Conn

-- The request of the visit arrives whole, its answer is taken, and executing it has a result.
pub record Calls (s : System) (v : Visit) (s' : System) : Type 0 where
  pub rc : Status
  pub bytes : Bytes
  pub Fits : CommandFits v.command
  pub array : length v.scene.garbage ≡ 4096
  pub run : execute v.scene s v.command ≡ some (some (rc, bytes), s')
  pub writable : Open v.conn.room
  pub room : 80 ≤ turns v.conn.room
  pub arrives : Carries v.conn.input (request v.command)

-- Executing the commands of all visits, one after the other.
pub data Executed : System → List Visit → System → Type 0 where
  finished : (s : System) → Executed s [] s
  onward :
      (s s' s'' : System) (v : Visit) (vs : List Visit)
      → Calls s v s'
      → Executed s' vs s''
      → Executed s (v ∷ vs) s''

abbrev pub callers : List Visit → List Caller
callers [] = []
callers (v ∷ vs) = nobody ∷ client (v.scene ∷ v.last ∷ []) v.conn ∷ callers vs

visit_lem :
    (s s' : System) (v : Visit)
    → Calls s v s'
    → (conn : Conn) × (serve_client (v.scene ∷ v.last ∷ []) s v.conn ≡ some (leave, s', conn))
unfolding serve_client request_hdr
visit_lem s s' v c =
    let (_, short) = execute-Accepts v.scene s s' v.command c.rc c.bytes c.run in
    let hdr = command_hdr v.command in
    let whole : Carries v.conn.input (hdr_bytes hdr ++ (payload_of v.command ++ [])) =
      (c.arrives.0, c.arrives.1 ∙ ap (λ l. hdr_bytes hdr ++ l) (sym (append-nil _))) in
    let (conn', served, answered, left, still) =
      serve_turn_lem v.scene s s' v.conn hdr (payload_of v.command) [] c.rc c.bytes
        (command_hdr-HdrFits v.command c.Fits) (command_hdr_good v.command)
        (sym (length-payload_of v.command c.Fits)) whole c.writable (omega (arith, c.room, short))
        (perform_lem v.scene s v.command c.Fits (omega (arith, c.array)) ∙ c.run) in
    ((recv_full conn' 24).1, rw (serve_client, served, serve_turn_end v.last s' conn' left) refl)

-- Where each client sends one request and closes its connection, the daemon executes the requests of
-- all clients one after the other, in the order of their connections, and goes on to accept more.
pub ctrl_server_main_lem :
    (s s' : System) (vs : List Visit)
    → Executed s vs s'
    → ctrl_server_main (callers vs) s ≡ some (leave, s')
unfolding ctrl_server_main
ctrl_server_main_lem _ _ _ (finished s) = refl
ctrl_server_main_lem _ _ _ (onward s s1 s' v vs c rest) =
    let (conn, served) = visit_lem s s1 v c in
    rw (ctrl_server_main, served) (ctrl_server_main_lem s1 s' vs rest)
