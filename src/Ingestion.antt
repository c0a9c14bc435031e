-- ===== src/Ingestion.antt =====
-- The ingestion thread of src/main.cpp, on one packet of the capture. Its two loops that wait for
-- other threads are taken an attempt at a time, since those run in between; `keep_running` is what
-- an attempt finds. The call of `parse_ipv4` has seven arguments; PacketParser's function takes nine,
-- and the source declares none of seven. That function is a parameter, with what it passes back in a
-- `Network`. `reject` is a packet that is skipped.
pub mod Parsing
pub mod Payload
pub mod Safety
mod Examples
use nethex.Base.{
  ℕ, ◌+◌, ◌-◌, Bool, true, false, not, ◌==◌, ltb, List, [], ◌∷◌, ◌++◌, Option, none, some,
  get_elem?, set, length, take, drop, if◌then◌else◌, Outcome, accept, reject, fault, ◌>>=◌, ◌>>◌,
  reject_if, in_array,
}
use nethex.Wire.{ByteOrder, ParsedPacket, no_payload}
use nethex.PacketParser.{parse_ethernet, parse_tcp, parse_udp}
use nethex.MemoryPool.{Pool, acquire_slot, release_slot}
use nethex.LoadBalancer.{LoadBalancer, dispatch, flow_hash}

-- What the threads share.
pub record Shared : Type 0 where
  pub load_balancer : LoadBalancer
  pub mem_pool : Pool

-- An envelope without its payload, and where the payload begins and ends.
pub record Parsed : Type 0 where
  pub envelope : ParsedPacket
  pub offset : ℕ
  pub packet_len : ℕ

-- Before an attempt to borrow a slot, before one to dispatch, and at the end.
pub data Phase : Type 0 where
  borrowing : Parsed → Phase
  dispatching : ParsedPacket → Phase
  dispatched : ParsedPacket → Phase
  abandoned : Phase

-- What the call of `parse_ipv4` passes back.
pub record Network : Type 0 where
  pub packet_length : ℕ
  pub offset : ℕ
  pub src_ip : ℕ
  pub dest_ip : ℕ
  pub next_protocol : ℕ

-- `ParsedPacket(src_ip, dest_ip, …)`
abbrev pub new_packet : Network → ℕ → ℕ → ℕ → ParsedPacket
new_packet ip src_port dest_port tcp_flags = record {
  src_ip = ip.src_ip;
  dest_ip = ip.dest_ip;
  src_port = src_port;
  dest_port = dest_port;
  protocol = ip.next_protocol;
  tcp_flags = tcp_flags;
  pool_slot_id = no_payload;
  payload_ptr = none;
  payload_length = 0;
}

-- Layer 4: TCP, UDP, or a packet that is skipped.
pub parse_transport : ByteOrder → List ℕ → Network → Outcome Parsed
parse_transport order raw_packet ip = elim (ip.next_protocol == 6) [
  | true ↦ do
    tcp ← parse_tcp order raw_packet ip.packet_length ip.offset
    accept (record {
      envelope = new_packet ip tcp.src_port tcp.dest_port tcp.tcp_flags;
      offset = tcp.offset;
      packet_len = ip.packet_length;
    })
  | false ↦ elim (ip.next_protocol == 17) [
    | true ↦ do
      udp ← parse_udp order raw_packet ip.packet_length ip.offset
      accept (record {
        envelope = new_packet ip udp.src_port udp.dest_port 0;
        offset = udp.offset;
        packet_len = ip.packet_length;
      })
    | false ↦ reject
  ]
]

-- From the raw packet to the first attempt.
pub parse_packet : ByteOrder → (List ℕ → ℕ → ℕ → Outcome Network) → List ℕ → ℕ → Outcome Phase
parse_packet order parse_ipv4 raw_packet packet_len = do
  eth ← parse_ethernet order raw_packet packet_len 0
  reject_if (not (eth.next_protocol == 0x0800))
  ip ← parse_ipv4 raw_packet packet_len eth.offset
  parsed ← parse_transport order raw_packet ip
  accept (
      if ltb parsed.offset parsed.packet_len then borrowing parsed else dispatching parsed.envelope)

abbrev pub copy_limit : ℕ
copy_limit = 2048

-- `memcpy` from the packet to a buffer of the pool.
pub copy_payload : List ℕ → ℕ → ℕ → Pool → ℕ → Outcome Pool
copy_payload raw_packet offset copy_size pool slot_id = do
  in_array raw_packet offset copy_size
  elim (get_elem? pool.pool slot_id) [
    | none ↦ fault
    | some buffer ↦ do
      in_array buffer 0 copy_size
      accept (record pool {
        pool =
            set pool.pool slot_id
              (take copy_size (drop offset raw_packet) ++ drop copy_size buffer);
      })
  ]

abbrev pub copy_size_of : Parsed → ℕ
copy_size_of parsed =
    let p_len : ℕ = parsed.packet_len - parsed.offset in
    if ltb copy_limit p_len then copy_limit else p_len

-- The slot that was borrowed gets the payload.
pub fill : List ℕ → Shared → Parsed → Pool → ℕ → Outcome (Phase × Shared)
fill raw_packet s parsed pool slot_id = do
  filled ← copy_payload raw_packet parsed.offset (copy_size_of parsed) pool slot_id
  accept (
    dispatching (record parsed.envelope {
      pool_slot_id = slot_id;
      payload_ptr = some slot_id;
      payload_length = copy_size_of parsed;
    }),
    record s { mem_pool = filled },
  )

pub borrow : List ℕ → Shared → Parsed → Outcome (Phase × Shared)
borrow raw_packet s parsed =
    let (slot, pool) = acquire_slot s.mem_pool in
    elim slot [
      | none ↦ accept (borrowing parsed, record s { mem_pool = pool })
      | some slot_id ↦ fill raw_packet s parsed pool slot_id
    ]

-- The envelope could not be dispatched before the end.
pub roll_back : Shared → ParsedPacket → Outcome (Phase × Shared)
roll_back s parsed = elim (parsed.pool_slot_id == no_payload) [
  | true ↦ accept (abandoned, s)
  | false ↦ do
    pool ← release_slot s.mem_pool parsed.pool_slot_id
    accept (abandoned, record s { mem_pool = pool })
]

pub send : ByteOrder → (List ℕ → ℕ → ℕ) → Shared → ParsedPacket → Outcome (Phase × Shared)
send order xxh64 s parsed = do
  (pushed, lb) ← dispatch s.load_balancer parsed (flow_hash order xxh64 parsed)
  accept (if pushed then dispatched parsed else dispatching parsed, record s { load_balancer = lb })

-- One attempt.
pub attempt :
    ByteOrder → (List ℕ → ℕ → ℕ) → List ℕ → Bool → Shared → Phase → Outcome (Phase × Shared)
attempt order xxh64 raw_packet true s (borrowing parsed) = borrow raw_packet s parsed
attempt order xxh64 raw_packet false s (borrowing parsed) = accept (dispatching parsed.envelope, s)
attempt order xxh64 raw_packet true s (dispatching parsed) = send order xxh64 s parsed
attempt order xxh64 raw_packet false s (dispatching parsed) = roll_back s parsed
attempt order xxh64 raw_packet keep_running s (dispatched parsed) = accept (dispatched parsed, s)
attempt order xxh64 raw_packet keep_running s abandoned = accept (abandoned, s)
