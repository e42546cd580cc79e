-- ===== src/Daemon/Darwin/Periodic.antt =====
-- `sendHelloMessage` of os/darwin/daemon/darwin-main.c beside `answerHello` of lltdResponder/lltdBlock.c.
use lltdresponder.Base.{ℕ, ◌≡◌, refl, ◌∙◌, true, some, List, ◌∷◌, take}
use lltdresponder.Protocol.{tos_discovery}
use lltdresponder.Port.{Effect, alloc, free, send, Port}
use lltdresponder.Responder.Hello.{hello_frame}
use lltdresponder.Daemon.Darwin.Hello.{Device, Agree, send_hello_message_ex, message-hello_frame}
use lltdresponder.Daemon.Darwin.{Interface, send_hello_message}

-- When its buffer is allocated, `sendHelloMessage` sends, byte for byte, the frame that the core builds
-- for an answer to a Discover of the discovery service with the interface's topology generation, whose
-- mapper has the address MapperHwAddress and is also the apparent mapper, as it is without a bridge;
-- and it frees the buffer. This holds for an interface whose address the platform knows and which
-- has a Wi-Fi mode if and only if it is wireless.
pub send_hello_message-hello_frame :
    (p : Port) (device : Device) (i : Interface) (history : List Effect) (buffer : List ℕ)
    (offset : ℕ)
    → p.mac_address ≡ some i.mac_address
    → Agree p device
    → p.malloc history ≡ true
    → hello_frame p device.mtu i.mapper_hw_address i.mapper_hw_address i.mapper_generation_topology
        tos_discovery
      ≡ some (buffer, offset)
    → send_hello_message p device i history
      ≡ some (free ∷ send (take offset buffer) ∷ alloc ∷ history)
unfolding send_hello_message send_hello_message_ex
send_hello_message-hello_frame p device i history buffer offset known agree room built =
    let sent =
      message-hello_frame p device i.mac_address tos_discovery i.mapper_hw_address
        i.mapper_hw_address i.mapper_generation_topology known agree in
    rw (send_hello_message, send_hello_message_ex, room, sent ∙ built) refl
