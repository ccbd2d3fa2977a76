-- ===== src/Tests/Service.antt =====
-- `run` over a whole connection, with a clicked link that is forwarded.
use lspt_evaluation.Common.{refl, text, arith, Finishes}
use lspt_evaluation.Socket.Peer.{Holds}
use lspt_evaluation.Stream.Cursor.{Cursor}
use lspt_evaluation.Worker.Service.Limits.{Refuses}
use lspt_evaluation.Worker.Service.Forwarding.{forward_link-Finishes}
use lspt_evaluation.Worker.{Host, forward_link}
use lspt_evaluation.Tests.Wires.{Wires, wires, peer_of_wires, link_json, short_dumps, clicking}

forward_link-Finishes_example :
    Finishes ⊥
      (Refuses link_json)
      (λ (h : Host Wires). Holds wires 5 peer_of_wires (text "before") h.net.world)
      (forward_link wires link_json 9000 (text "link") clicking)
unfolding text
forward_link-Finishes_example =
    forward_link-Finishes wires link_json 9000 5 peer_of_wires 10 200 short_dumps (omega arith)
      (omega arith) (text "before") (text "link") clicking (omega arith)
      (record { wire_is = refl; is_open = tt })
