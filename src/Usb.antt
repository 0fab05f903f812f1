-- ===== src/Usb.antt =====
-- The USB device stack of src/usb.cpp and src/usb.h.
pub mod Regs
pub mod State
pub mod Packet
pub mod Structs
pub mod Descriptors
pub mod Standard
pub mod Control
pub mod Poll
pub mod Send
pub mod Safe
pub mod SafePacket
pub mod Buffer
pub mod Receive
pub mod Address
pub mod Alloc
pub mod Text
pub mod Valid
pub mod Invariant
pub mod Keeps
pub mod Stages
pub mod Boundary
pub mod Phases
pub mod Refine
pub mod Kept
pub mod Stall
pub mod Errors
pub mod Register
pub mod Toggle
pub mod Clear
