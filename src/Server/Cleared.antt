-- ===== src/Server/Cleared.antt =====
-- What the end of `start` in src/tcp_server.cpp leaves behind.
use nebula_x.Base.{
  ℕ, ◌+◌, ◌*◌, ◌≤◌, ◌≡◌, ap, ◌∙◌, Bool, some, Option, List, [], ◌++◌, arith, length, Distinct,
}
use nebula_x.Ring.{used, ring_size}
use nebula_x.Ring.Bytes.{contents}
use nebula_x.Ring.Pop.{Fits}
use nebula_x.Server.Conns.{World, Server, Effect, RingFrame, rsp_close, response_size}
use nebula_x.Server.Held.{Held, length-buffers}
use nebula_x.Server.Shutdown.{Thread, shut_all, store_acks, addresses, close_frames, close_fds}
use nebula_x.Server.Shut.{Shut, Within, Distinct-Within}
use nebula_x.Server.Told.{Told, shut_all-Told, unstored}
use nebula_x.Sender.{Sender, send_rounds}
use nebula_x.Sender.Delivered.{length-contents}
use nebula_x.Sender.Closes.{AllClosed, send_rounds-AllClosed}
use nebula_x.Server.Entries.{Named, Within-Named, Within-open, Distinct-addresses}

-- What the shutdown leaves: of the connections, those whose flag is late; an empty ring; and the ends
-- of all descriptors, each once, behind what was done before.
pub record Cleared (late : Bool) (sv : Server) (result : Option Server) : Type 0 where
  pub after : Server
  pub is_some : result ≡ some after
  pub held : Held after
  pub conns : after.conns ≡ unstored late sv.conns
  pub pending : after.pending_closes ≡ addresses (unstored late sv.conns)
  pub empty : contents after.ring ≡ []
  pub before : List Effect
  pub ended : after.effects ≡ before ++ close_fds sv.conns

-- A server whose connections are open and whose ring has room: after the second pass, the wait and
-- the last drain.
module _ (w : World) (th : Thread) (sv : Server) (h : Held sv) (none_waits : sv.pending_closes ≡ [])
    (size : (x : RingFrame) → length (w.image x) ≡ response_size)
    (reads : (fd a : ℕ) → th.frame_of (w.image (rsp_close fd a)) ≡ some (rsp_close fd a))
    (fits : Fits sv.ring) (empty : contents sv.ring ≡ []) where
  abbrev m : List (ℕ × ℕ)
  m = sv.conns

  within : Within m sv
  within = Distinct-Within m sv h.single (λ k b e. e)

  named : Named m sv.heap
  named = Within-Named m sv h within

  distinct : Distinct (addresses m)
  distinct = Distinct-addresses m sv.heap named h.single

  abbrev shut : Server
  shut = shut_all w m sv

  room : used sv.ring + length m * 48 ≤ ring_size
  room =
      omega (
        arith,
        length-contents sv.ring,
        ap length empty,
        h.shared.counted,
        length-buffers sv.heap m,
      )

  told : Told w m sv shut
  told = shut_all-Told w m sv size fits room distinct (Within-open m sv h none_waits within)

  abbrev sender : Sender
  sender = record { ring = shut.ring; effects = shut.effects; acked = []; zc_ok = th.zc_ok }

  closed : AllClosed m sender (send_rounds (length m) 0 w th.zc th.frame_of sender)
  closed =
      send_rounds-AllClosed 0 w th.zc th.frame_of m sender size reads told.fits
        (told.ring ∙ ap (λ l. l ++ close_frames w m) empty)

  abbrev settled : Server
  settled = record shut {
    ring = closed.after;
    effects = shut.effects ++ close_fds m;
    heap = store_acks th.late (addresses m) shut.heap;
  }
