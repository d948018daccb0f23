-- ===== src/EngineIo/Frame/Tests.antt =====
-- Runs of the framing, and its theorems at concrete packets.
use socket_io.Base.{ℕ, zero, suc, ◌≡◌, refl, true, [], ◌∷◌, ◌++◌, Bytes, length, ap, ok, arith}
use socket_io.EngineIo.Packet.{Packet, message, encoded_len, encode}
use socket_io.EngineIo.Frame.{send, next_packet}
use socket_io.EngineIo.Frame.RoundTrip.{next_packet-send}

abbrev blob : Packet
blob = record { is_binary = true; type = message; body = 0 ∷ 30 ∷ 255 ∷ 7 ∷ [] }

send-blob : send blob ≡ 132 ∷ 0 ∷ 30 ∷ 255 ∷ 7 ∷ []
unfolding send encode encoded_len
send-blob = refl

next_packet-send_example : next_packet (send blob ++ (9 ∷ [])) ≡ ok (blob, 9 ∷ [])
unfolding encoded_len
next_packet-send_example = next_packet-send blob (9 ∷ []) (λ _. refl) (omega arith) (omega arith)

zeros : ℕ → Bytes
zeros zero = []
zeros (suc n) = 0 ∷ zeros n

length-zeros : (n : ℕ) → length (zeros n) ≡ n
unfolding zeros
length-zeros zero = refl
length-zeros (suc n) = ap suc (length-zeros n)

long : ℕ → Packet
long n = record { is_binary = true; type = message; body = zeros n }

encoded_len-long : (n : ℕ) → encoded_len (long n) true ≡ n
unfolding encoded_len long
encoded_len-long n = length-zeros n
