-- ===== src/Net/Udp/Packet.antt =====
-- The datagram that `udp_send` builds, and when it gets through.
use acharya_os.Base.{
  ℕ, ◌+◌, ◌/◌, ◌^◌, ◌≤◌, ◌<◌, ◌≡◌, arith, List, [], ◌∷◌, some, fail, true, false, length, u8, u16,
  bit_and, leb, ltb, ◌==◌,
}
use acharya_os.Net.Ipv4
use acharya_os.Net.Ipv4.{Ipv4, checksum}
use acharya_os.Net.Ipv4.Checksum.{AreBytes, checksum_stored}
use acharya_os.Net.Udp.{Udp, packet, send, after_send, is_used, socket_at, count_drop}

-- With at most 1472 bytes of data, the datagram that `udp_send` builds, header and data, has the
-- checksum 0 (the code's checksum covers no pseudo header).
pub checksum-packet :
    (src_port dst_port : ℕ) (bytes : List ℕ) (len : ℕ)
    → AreBytes bytes
    → length bytes ≤ 1472
    → checksum (packet src_port dst_port bytes len) ≡ 0
unfolding packet
checksum-packet src_port dst_port bytes len b short =
    checksum_stored
      (u8 (src_port / 2 ^ 8)
        ∷ u8 (bit_and src_port 0xFF)
        ∷ u8 (dst_port / 2 ^ 8)
        ∷ u8 (bit_and dst_port 0xFF)
        ∷ u8 (u16 (8 + len) / 2 ^ 8)
        ∷ u8 (bit_and (u16 (8 + len)) 0xFF)
        ∷ [])
      bytes
      (omega arith, (omega arith, (omega arith, (omega arith, (omega arith, (omega arith, tt)))))) b
      (omega arith) (omega arith)

-- On a socket in use, a payload of 1393 to 1472 bytes passes the check of `udp_send`, but the datagram never gets
-- through: `ipv4_send` turns down more than 1400 bytes. Nothing is asked of ARP or sent, and both
-- layers count a drop.
pub send_long :
    (id dst_ip dst_port : ℕ) (bytes : List ℕ) (len : ℕ) (udp : Udp) (net : Ipv4)
    → id < 8
    → is_used (socket_at udp id) ≡ true
    → 1392 < len
    → len ≤ 1472
    → send (some id) dst_ip dst_port (some bytes) len udp net
      ≡ (fail, count_drop udp, Ipv4.count_drop net)
unfolding send Ipv4.send after_send
send_long id dst_ip dst_port bytes len udp net inside on long short =
    let a : leb 8 id ≡ false = ground arith in
    let b : ltb 1472 len ≡ false = ground arith in
    let c : (u16 (8 + len) == 0) ≡ false = ground arith in
    let d : ltb 1400 (u16 (8 + len)) ≡ true = ground arith in rw (a, on, b, c, d)
