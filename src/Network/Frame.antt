-- ===== src/Network/Frame.antt =====
-- The packet format: what `TCPStream::send` and `ASIOSocketWrapper::constructControlPacket` put on
-- the wire (libcore/src/network/TCPStream.cpp, ASIOSocketWrapper.cpp). A chunk is a list of bytes.
use sirikata.Base.{ℕ, ◌^◌, ◌<◌, ◌≡◌, refl, List, [], ◌∷◌, ◌++◌, length, append_assoc}
use sirikata.Network.Uint30.{serialize}

pub record Packet : Type 0 where
  pub stream : ℕ
  pub payload : List ℕ

-- The length that the packet's header announces: that of the stream id and of the data.
unfoldable pub body : Packet → List ℕ
body p = serialize p.stream ++ p.payload

unfoldable pub encode : Packet → List ℕ
encode p = serialize (length (body p)) ++ body p

pub data ControlCode : Type 0 where
  close_stream ack_close_stream : ControlCode

abbrev code_byte : ControlCode → ℕ
code_byte close_stream = 1
code_byte ack_close_stream = 2

-- The header is written last, in front of the rest.
unfoldable pub construct_control_packet : ControlCode → ℕ → List ℕ
construct_control_packet code sid =
    let rest = serialize 0 ++ code_byte code ∷ serialize sid in serialize (length rest) ++ rest

-- The asserts of `uint30` and `serialize`: id and length fit 30 bits.
pub record IsSendable (p : Packet) : Type 0 where
  pub stream_fits : p.stream < 2 ^ 30
  pub length_fits : length (body p) < 2 ^ 30

-- What a sequence of sends puts on the wire.
unfoldable pub wire : List Packet → List ℕ
wire [] = []
wire (p ∷ ps) = encode p ++ wire ps

abbrev pub AllSendable : List Packet → Type 0
AllSendable [] = Unit {0}
AllSendable (p ∷ ps) = IsSendable p × AllSendable ps

pub wire-cons :
    (p : Packet) (ps : List Packet)
    → wire (p ∷ ps) ≡ serialize (length (body p)) ++ (body p ++ wire ps)
unfolding wire encode
wire-cons p ps = append_assoc (serialize (length (body p))) (body p) (wire ps)

abbrev pub control : ControlCode → ℕ → Packet
control code sid = record { stream = 0; payload = code_byte code ∷ serialize sid }

-- A control packet is a packet on stream 0 that holds the code and the stream id.
construct_control_packet-encode :
    (code : ControlCode) (sid : ℕ) → construct_control_packet code sid ≡ encode (control code sid)
unfolding construct_control_packet encode body
construct_control_packet-encode code sid = refl
