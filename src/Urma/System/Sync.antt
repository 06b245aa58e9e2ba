-- ===== src/Urma/System/Sync.antt =====
-- The whole of `ramdisk_urma_transfer_sync` in userspace-nbd/src/ramdisk_urma.c: acceptance, and the
-- wait in which the worker and other callers run.
use ddr_direct_storage.Base.{
  ℕ, true, false, ◌||◌, Option, some, List, [], ◌∷◌, ◌==◌, if◌then◌else◌, ◌>>=◌, Status, ok, err,
  get_elem?, length,
}
use ddr_direct_storage.Base.Errno.{etimedout}
use ddr_direct_storage.Urma.State.{Transfer}
use ddr_direct_storage.Urma.Queue.{submit_locked}
use ddr_direct_storage.Urma.System.{System, Event, run}

-- One return of `pthread_cond_timedwait`: what the other threads have done since the mutex was
-- given up, and the return value.
abbrev pub Round : Type 0
Round = List Event × ℕ

-- What a call returns; it is still waiting where its rounds have run out.
pub data Waited : Type 0 where
  returned : Status → Waited
  waiting : Waited

-- The loop, for the request with number `r`.
unfoldable pub wait_loop : List Round → System → ℕ → Option (Waited × System)
wait_loop [] s r = do
  req ← get_elem? s.reqs r
  some (if req.done then returned req.status else waiting, s)
wait_loop ((others, rc) ∷ rounds) s r =
    let more = (do
      s' ← run others s
      elim (rc == etimedout || rc == 0) [
        | true ↦ wait_loop rounds s' r
        | false ↦ some (returned (err rc), s')
      ]) in
    (do req ← get_elem? s.reqs r; (if req.done then some (returned req.status, s) else more))

unfoldable pub ramdisk_urma_transfer_sync :
    List Round → System → Option Transfer → Option (Waited × System)
unfolding wait_loop
ramdisk_urma_transfer_sync rounds s xfer =
    let (rc, m, reqs) = submit_locked s.mgr s.backend s.reqs xfer in
    let accepted = record s { mgr = m; reqs = reqs } in
    elim rc [ err e ↦ some (returned (err e), s) | ok ↦ wait_loop rounds accepted (length s.reqs) ]
