-- ===== src/Wav.antt =====
-- The stream header: `rsnd_send_header_info` of src/librsound/librsound.c writes it, and
-- `get_wav_header` of src/rsound-common.c reads it, on machines of any two byte orders.
pub mod Encode
pub mod Decode
pub mod Layout
pub mod RoundTrip
mod Tests
