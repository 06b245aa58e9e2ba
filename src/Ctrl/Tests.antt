-- ===== src/Ctrl/Tests.antt =====
-- Concrete conversations over the control socket.
use ddr_direct_storage.Base.{
  codes, ◌↔◌, none, ℕ, ◌+◌, ◌*◌, ◌-◌, List, ◌≡◌, refl, ◌++◌, true, false, some, [], ◌∷◌, ok, Bytes,
  take, drop, replicate, zeros, length-zeros, arith,
}
use ddr_direct_storage.Backend.{Backend}
use ddr_direct_storage.Stream.{got, intr, accepts, Conn}
use ddr_direct_storage.Stream.Chunks.{Carries}
use ddr_direct_storage.Urma.State.{Transfer}
use ddr_direct_storage.Urma.Manager.{zeroed_mgr}
use ddr_direct_storage.Urma.System.{System, idle}
use ddr_direct_storage.Ctrl.Messages.{hdr_bytes, resp_bytes, status_bytes}
use ddr_direct_storage.Ctrl.Server.{Scene, again, leave, serve_turn, query_status, response}
use ddr_direct_storage.Ctrl.Server.Serving.{reply}
use ddr_direct_storage.Ctrl.Client.{request_hdr, replies}
use ddr_direct_storage.Ctrl.Client.Eid.{ramdisk_ctrl_parse_eid}
use ddr_direct_storage.Ctrl.Client.Eid.Decoding.{ramdisk_ctrl_parse_eid_lem, outcome, spelling}
use ddr_direct_storage.Ctrl.Command.{query, enable, transfer, execute}
use ddr_direct_storage.Ctrl.Remote.{call, command_hdr, request, remote_call}
use ddr_direct_storage.Urma.Peers.{ramdisk_urma_enable}
use ddr_direct_storage.Ctrl.Accept.{
  ctrl_server_main, Visit, Calls, finished, onward, callers, ctrl_server_main_lem,
}
use ddr_direct_storage.Ctrl.Tool.{peer_disconnect_word, peer_disconnect_args, command_of}
use ddr_direct_storage.Ctrl.Tool.Usage.{Asks, asks_to_hbm, command_of_lem}

abbrev disk : Backend
disk = record {
  base = some (1 ∷ 2 ∷ 3 ∷ 4 ∷ []);
  size = 4;
  block_size = 512;
  locked = false;
  initialized = true;
}

abbrev idle_system : System
idle_system = record { backend = disk; mgr = zeroed_mgr; reqs = []; worker = idle }

abbrev scene : Scene
scene = record { calloc_ok = true; rounds = []; garbage = zeros 4096 }

abbrev answer : Bytes
answer = status_bytes (query_status idle_system)

abbrev wire_answer : Bytes
wire_answer = reply (command_hdr query) ok answer

-- The answer arrives in two pieces, with a signal between them.
abbrev client : Conn
client = record {
  input = got (take 7 wire_answer) ∷ intr ∷ got (drop 7 wire_answer) ∷ [];
  sent = [];
  room = replicate 80 (accepts 1);
}

abbrev server : Conn
server = record {
  input = got (take 20 (request query)) ∷ got (drop 20 (request query)) ∷ [];
  sent = [];
  room = replicate 80 (accepts 5);
}

runs_query : execute scene idle_system query ≡ some (some (ok, answer), idle_system)
unfolding execute
runs_query = refl

arrives : Carries server.input (request query ++ [])
unfolding hdr_bytes request_hdr
arrives = ((omega arith, (omega arith, tt)), refl)

comes_back : Carries client.input (wire_answer ++ [])
unfolding hdr_bytes resp_bytes response request_hdr status_bytes
comes_back = ((omega arith, (omega arith, tt)), refl)

remote_call_example :
    (client' : Conn) × (server' : Conn) × (call ok client query ≡ some (replies 0 answer, client'))
    × (serve_turn scene idle_system server ≡ some (again, idle_system, server'))
    × (client'.sent ≡ client.sent ++ request query)
    × (server'.sent ≡ server.sent ++ wire_answer)
    × Carries client'.input []
    × Carries server'.input []
remote_call_example =
    remote_call scene idle_system idle_system query client server ok answer [] [] tt
      (length-zeros 4096) runs_query (omega arith) tt (omega arith) tt (omega arith) arrives
      comes_back

-- The first client asks for the status, the second one enables the path.
abbrev server2 : Conn
server2 = record { input = got (request enable) ∷ []; sent = []; room = replicate 80 (accepts 1) }

abbrev enabled_system : System
enabled_system = record idle_system { mgr = (ramdisk_urma_enable zeroed_mgr).1 }

abbrev visit1 : Visit
visit1 = record { scene = scene; last = scene; command = query; conn = server }

abbrev visit2 : Visit
visit2 = record { scene = scene; last = scene; command = enable; conn = server2 }

runs_enable :
    execute scene idle_system enable
    ≡ some (some ((ramdisk_urma_enable zeroed_mgr).0, []), enabled_system)
unfolding execute
runs_enable = refl

arrives1 : Carries server.input (request query)
unfolding hdr_bytes request_hdr
arrives1 = ((omega arith, (omega arith, tt)), refl)

arrives2 : Carries server2.input (request enable)
unfolding hdr_bytes request_hdr
arrives2 = ((omega arith, tt), refl)

calls1 : Calls idle_system visit1 idle_system
calls1 = record {
  rc = ok;
  bytes = answer;
  Fits = tt;
  array = length-zeros 4096;
  run = runs_query;
  writable = tt;
  room = omega arith;
  arrives = arrives1;
}

calls2 : Calls idle_system visit2 enabled_system
calls2 = record {
  rc = (ramdisk_urma_enable zeroed_mgr).0;
  bytes = [];
  Fits = tt;
  array = length-zeros 4096;
  run = runs_enable;
  writable = tt;
  room = omega arith;
  arrives = arrives2;
}

ctrl_server_main_lem_example :
    ctrl_server_main (callers (visit1 ∷ visit2 ∷ [])) idle_system ≡ some (leave, enabled_system)
ctrl_server_main_lem_example =
    ctrl_server_main_lem idle_system enabled_system (visit1 ∷ visit2 ∷ []) (
      onward idle_system idle_system enabled_system visit1 (visit2 ∷ []) calls1 (
        onward idle_system enabled_system enabled_system visit2 [] calls2
          (finished enabled_system)))

-- A `strtoull` for decimal digits.
abbrev decimal_from : ℕ → Bytes → ℕ
decimal_from acc [] = acc
decimal_from acc (ch ∷ s) = decimal_from (acc * 10 + (ch - 48)) s

abbrev decimal : Bytes → ℕ
decimal s = decimal_from 0 s

-- `ramdiskctl --sock s status`.
abbrev status_argv : List Bytes
status_argv = codes "ramdiskctl" ∷ codes "--sock" ∷ codes "s" ∷ codes "status" ∷ []

abbrev asked_transfer : Transfer
asked_transfer = record {
  peer_id = 7;
  request_id = 9;
  local_offset = 0;
  remote_hbm_addr = 64;
  len = 512;
  direction = 1;
}

abbrev transfer_argv : List Bytes
transfer_argv =
    codes "transfer"
    ∷ codes "7"
    ∷ codes "9"
    ∷ codes "0"
    ∷ codes "64"
    ∷ codes "512"
    ∷ codes "to-hbm"
    ∷ []

command_of_lem_example :
    (command_of decimal transfer_argv ≡ some (transfer asked_transfer))
    ↔ Asks decimal transfer_argv (transfer asked_transfer)
command_of_lem_example = command_of_lem decimal transfer_argv (transfer asked_transfer)

taken_transfer : command_of decimal transfer_argv ≡ some (transfer asked_transfer)
taken_transfer =
    (command_of_lem decimal transfer_argv (transfer asked_transfer)).1
      (asks_to_hbm (codes "7") (codes "9") (codes "0") (codes "64") (codes "512"))

-- A word for a command that is missing its arguments.
asks_nothing : command_of decimal (peer_disconnect_word ∷ []) ≡ none
unfolding command_of peer_disconnect_args
asks_nothing = refl

-- `00:11:22:...:fF`.
abbrev eid_text : Bytes
eid_text =
    48 ∷ 48 ∷ 58 ∷ 49 ∷ 49 ∷ 58 ∷ 50 ∷ 50 ∷ 58 ∷ 51 ∷ 51 ∷ 45 ∷ 52 ∷ 52 ∷ 53 ∷ 53 ∷ 54 ∷ 54 ∷ 55
    ∷ 55 ∷ 56 ∷ 56 ∷ 57 ∷ 57 ∷ 97 ∷ 97 ∷ 98 ∷ 66 ∷ 99 ∷ 99 ∷ 100 ∷ 100 ∷ 101 ∷ 101 ∷ 46 ∷ 102 ∷ 70
    ∷ []

ramdisk_ctrl_parse_eid_lem_example :
    outcome (ramdisk_ctrl_parse_eid (some eid_text) (zeros 16)) ≡ spelling eid_text
ramdisk_ctrl_parse_eid_lem_example = ramdisk_ctrl_parse_eid_lem eid_text (zeros 16)

eid_parsed : ramdisk_ctrl_parse_eid (some eid_text) (zeros 16) ≡ (
  ok,
  0 ∷ 17 ∷ 34 ∷ 51 ∷ 68 ∷ 85 ∷ 102 ∷ 119 ∷ 136 ∷ 153 ∷ 170 ∷ 187 ∷ 204 ∷ 221 ∷ 238 ∷ 255 ∷ [],
)
unfolding ramdisk_ctrl_parse_eid
eid_parsed = refl
