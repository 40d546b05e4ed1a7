-- ===== src/Samples.antt =====
-- js/samples: the sample programs, which join a mesh to a serial port and to UDP sockets.
pub mod Serial
pub mod Reading
pub mod Udp
pub mod Routes
mod Tests
