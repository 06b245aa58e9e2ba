-- ===== src/Ctrl/Tool.antt =====
-- The program userspace-nbd/src/ramdiskctl.c. A text is the list of its characters, without the zero
-- that ends it; `strtoull` of libc is a parameter. What the program prints is left out.
pub mod Usage
pub mod Running
use ddr_direct_storage.Base.{
  ℕ, ◌%◌, ◌^◌, Option, none, some, List, [], ◌∷◌, ◌==◌, if◌then◌else◌, ◌>>=◌, Status, ok, err,
  Bytes, zeros, strcmp_equal, codes,
}
use ddr_direct_storage.Stream.{Conn}
use ddr_direct_storage.Urma.State.{ramdisk_to_hbm, hbm_to_ramdisk}
use ddr_direct_storage.Ctrl.Client.{Answer, replies, hangs, connect_sock}
use ddr_direct_storage.Ctrl.Client.Eid.{ramdisk_ctrl_parse_eid}
use ddr_direct_storage.Ctrl.Command.{Command, query, enable, disable, connect, disconnect, transfer}
use ddr_direct_storage.Ctrl.Remote.{call}
use ddr_direct_storage.Nbd.Args.{default_sock}

abbrev pub sock_flag : Bytes
sock_flag = codes "--sock"

abbrev pub status_word : Bytes
status_word = codes "status"

abbrev pub enable_word : Bytes
enable_word = codes "enable"

abbrev pub disable_word : Bytes
disable_word = codes "disable"

abbrev pub peer_connect_word : Bytes
peer_connect_word = codes "peer-connect"

abbrev pub peer_disconnect_word : Bytes
peer_disconnect_word = codes "peer-disconnect"

abbrev pub transfer_word : Bytes
transfer_word = codes "transfer"

abbrev pub to_hbm_word : Bytes
to_hbm_word = codes "to-hbm"

abbrev pub from_hbm_word : Bytes
from_hbm_word = codes "from-hbm"

-- The path of the socket, and the arguments from `argv[arg]` on.
unfoldable pub sock_and_args : List Bytes → Bytes × List Bytes
sock_and_args [] = (default_sock, [])
sock_and_args (prog ∷ flag ∷ path ∷ word ∷ args) =
    if strcmp_equal flag sock_flag
    then (path, word ∷ args)
    else (default_sock, flag ∷ path ∷ word ∷ args)
sock_and_args (prog ∷ args) = (default_sock, args)

-- How the program ends, or that it waits for ever.
pub data Exit : Type 0 where
  exits : ℕ → Exit
  waits_forever : Exit

abbrev pub exit_of : Answer → Exit
exit_of (replies rc bytes) = exits (if rc == 0 then 0 else 1)
exit_of hangs = waits_forever

module _ (strtoull : Bytes → ℕ) where
  unfoldable pub parse_u64 : Bytes → ℕ
  parse_u64 s = strtoull s % 2 ^ 64

  -- `none` is `return 2`.
  unfoldable pub peer_connect_args : List Bytes → Option Command
  unfolding parse_u64
  peer_connect_args (peer_id ∷ eid ∷ uasid ∷ seg_va ∷ seg_len ∷ token ∷ jetty ∷ []) =
      let (rc, parsed) = ramdisk_ctrl_parse_eid (some eid) (zeros 16) in
      elim rc [
        | err e ↦ none
        | ok ↦ some (
            connect (record {
              peer_id = parse_u64 peer_id;
              eid = parsed;
              uasid = parse_u64 uasid % 2 ^ 32;
              seg_va = parse_u64 seg_va;
              seg_len = parse_u64 seg_len;
              seg_token_id = parse_u64 token % 2 ^ 32;
              jetty_id = parse_u64 jetty % 2 ^ 32;
            }))
      ]
  peer_connect_args args = none

  unfoldable pub peer_disconnect_args : List Bytes → Option Command
  unfolding parse_u64
  peer_disconnect_args (peer_id ∷ []) = some (disconnect (parse_u64 peer_id))
  peer_disconnect_args args = none

  abbrev pub direction_of : Bytes → Option ℕ
  direction_of word =
      if strcmp_equal word to_hbm_word
      then some ramdisk_to_hbm
      else if strcmp_equal word from_hbm_word
      then some hbm_to_ramdisk
      else none

  unfoldable pub transfer_args : List Bytes → Option Command
  unfolding parse_u64
  transfer_args (peer_id ∷ request_id ∷ local ∷ remote ∷ len ∷ way ∷ []) = elim (direction_of way) [
    | none ↦ none
    | some direction ↦ some (
        transfer (record {
          peer_id = parse_u64 peer_id;
          request_id = parse_u64 request_id;
          local_offset = parse_u64 local;
          remote_hbm_addr = parse_u64 remote;
          len = parse_u64 len % 2 ^ 32;
          direction = direction;
        }))
  ]
  transfer_args args = none

  -- The command that the arguments ask for.
  unfoldable pub command_of : List Bytes → Option Command
  command_of [] = none
  command_of (word ∷ args) =
      if strcmp_equal word status_word
      then some query
      else if strcmp_equal word enable_word
      then some enable
      else if strcmp_equal word disable_word
      then some disable
      else if strcmp_equal word peer_connect_word
      then peer_connect_args args
      else if strcmp_equal word peer_disconnect_word
      then peer_disconnect_args args
      else if strcmp_equal word transfer_word
      then transfer_args args
      else none

  -- `main`; `socket_rc` and `connects` are what the system calls of `connect_sock` answer.
  unfoldable pub main : Status → (Bytes → Status) → Conn → List Bytes → Option (Exit × Conn)
  main socket_rc connects conn argv =
      let (sock, args) = sock_and_args argv in
      elim (command_of args) [
        | none ↦ some (exits 2, conn)
        | some command ↦ do
          (answer, conn') ← call (connect_sock (some sock) socket_rc connects) conn command
          some (exit_of answer, conn')
      ]
