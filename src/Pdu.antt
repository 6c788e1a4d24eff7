-- ===== src/Pdu.antt =====
-- The package pdu: the packets of the protocol and their encodings.
pub mod Sequence
pub mod Header
pub mod ObjectIdentifier
pub mod OctetString
pub mod Range
pub mod Ranges
pub mod Get
pub mod GetNext
pub mod TestSet
pub mod Variable
pub mod Variables
pub mod Timeout
pub mod Response
pub mod Notify
pub mod Administrative
pub mod Minor
pub mod Names
pub mod Packet
pub mod HeaderPacket
