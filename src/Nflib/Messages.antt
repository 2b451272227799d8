-- ===== src/Nflib/Messages.antt =====
-- What an NF sends: onvm_nflib_nf_ready and onvm_nflib_send_msg_to_nf of onvm/onvm_nflib/onvm_nflib.c. What
-- rte_mempool_get and rte_ring_enqueue return are arguments; a message that is not sent goes back to its pool.
use afxdp_path_manager.Common.{
  ℕ, zero, suc, ◌+◌, ◌≡◌, ◌≢◌, ◌⊎◌, refl, Bool, true, false, not, List, [], ◌∷◌, ◌++◌, ◌==◌, ℤ, pos,
  negsuc, update, if◌then◌else◌,
}
use afxdp_path_manager.Mgr.Services.{Mgr, service_to_nf_map}
use afxdp_path_manager.Mgr.Services.Map.{is_mapped}
use afxdp_path_manager.Mgr.Services.History.{IsConsistent, service_to_nf_map-mapped}
use afxdp_path_manager.Nflib.{nf_running, ready, Process, CallResult, returns, waits, ◌and_then◌}
use afxdp_path_manager.Nflib.Scale.{is_negative}
use afxdp_path_manager.Nflib.Loop.{NfMsg, msg_from_nf}

abbrev is_zero : ℤ → Bool
is_zero (pos n) = n == 0
is_zero (negsuc n) = false

-- The wait for the manager's handshake, within a number of seconds; `status` is the NF's status second by second.
unfoldable await_running : ℕ → (ℕ → ℕ) → ℕ → CallResult ℕ
await_running zero status now = waits
await_running (suc seconds) status now =
    let later = await_running seconds status (now + 1) in
    if status now == nf_running then returns now else later

unfoldable nf_ready : ℕ → ℤ → ℤ → (ℕ → ℕ) → ℕ → Process → CallResult (ℤ × Process)
unfolding await_running
nf_ready seconds got enqueued status id p =
    let sent = record p { to_mgr = p.to_mgr ++ ready id ∷ [] } in
    if not (is_zero got)
    then returns (got, p)
    else if is_negative enqueued
    then returns (enqueued, p)
    else await_running seconds status 0 and_then λ now. returns (pos 0, sent)

-- onvm_nflib_send_msg_to_nf on the queues of messages by slot. Without a packet the first NF of the service gets the
-- message, as with the hash 0.
unfoldable send_msg_to_nf : ℤ → ℤ → ℕ → ℕ → Mgr → (ℕ → List NfMsg) → ℤ × (ℕ → List NfMsg)
send_msg_to_nf got enqueued dest msg_data m queues =
    let instance_id = service_to_nf_map dest 0 m in
    if not (is_zero got)
    then (got, queues)
    else if not (is_zero enqueued)
    then (enqueued, queues)
    else (pos 0, update queues instance_id (queues instance_id ++ msg_from_nf msg_data ∷ []))

-- When rte_mempool_get and rte_ring_enqueue succeed, onvm_nflib_send_msg_to_nf returns 0 and puts the message last on
-- one queue: that of a ready NF of the service, or, if the service has none, the queue of slot 0.
send_msg_to_nf-mapped :
    (dest msg_data i : ℕ) (m : Mgr) (queues : ℕ → List NfMsg)
    → IsConsistent m
    → (id : ℕ) × (send_msg_to_nf (pos 0) (pos 0) dest msg_data m queues
        ≡ (pos 0, update queues id (queues id ++ msg_from_nf msg_data ∷ [])))
      × (((is_mapped (m.nfs id) ≡ true) × ((m.nfs id).service_id ≡ dest) × (id ≢ 0))
          ⊎ ((id ≡ 0) × ((is_mapped (m.nfs i) ≡ false) ⊎ ((m.nfs i).service_id ≢ dest))))
unfolding send_msg_to_nf
send_msg_to_nf-mapped dest msg_data i m queues c =
    (service_to_nf_map dest 0 m, refl, service_to_nf_map-mapped m dest 0 i c)
