-- ===== src/Lib.antt =====
-- RSound plays audio over a network. A client links src/librsound, which sends samples to the
-- server rsd (src/daemon.c, src/rsound-common.c); the server converts them and writes them to a
-- backend. This library models the parts that the two sides must agree on and the data path
-- between the application and the socket, and proves what makes them correct.
--
-- How the parts interact. `rsd_start` connects, sends the 44-byte stream header
-- (`rsnd_send_header_info`) and reads the server's latency and chunk size
-- (`rsnd_get_backend_info`). From then on `rsd_write` puts bytes into a FIFO, which the network
-- thread empties into the socket chunk by chunk. The server's thread (`rsd_thread`) decodes the
-- stream header (`get_wav_header`), answers with `send_backend_info`, and gives the bytes that
-- arrive (`receive_data`) to its backend; samples are converted to 16-bit samples of the machine's
-- byte order where a backend asks for it (`audio_converter`). On the control socket the client
-- asks how far the server has played (`rsnd_send_info_query`), which the server answers between
-- two packets (`handle_ctl_request`); from the answers the client corrects its delay
-- (`rsnd_update_server_info`).
--
-- The files:
--   Base      lists over the native numbers, Boolean tests, bit operations, signed integers.
--   Endian    src/endian.c: `is_little_endian`, `swap_endian_16`, `swap_endian_32`.
--   Format    enum rsd_format of src/librsound/rsound.h and src/audio.h, and the sample sizes.
--   Fifo      src/librsound/buffer.c: `rsnd_fifo_new`, `_write`, `_read`, `_read_avail` and
--             `_write_avail` as `new`, `write`, `read`, `read_avail`, `write_avail`. Fifo/Queue is
--             the abstract queue.
--   Wav       the stream header: Wav/Encode is `rsnd_send_header_info` of
--             src/librsound/librsound.c, Wav/Decode is `get_wav_header` of src/rsound-common.c.
--   Convert   src/audio.c: the tables, the loops, the choice of operations and
--             `audio_converter`.
--   Net       src/librsound/librsound.c: the socket loops `rsnd_send_chunk`, `rsnd_recv_chunk`
--             with `rsnd_poll`, and `write_all` of src/client.c.
--   Proto     src/proto.c: `get_proto`; Proto/Serve is `handle_ctl_request` with `send_proto`;
--             Proto/Number is the reading of numbers by strtol and strtoull.
--   Server    src/rsound-common.c: `receive_data`; Server/Thread is `rsd_thread`.
--   Daemon    src/daemon.c: the accept loop with `valid_ips`, and `new_sound_thread` of
--             src/rsound-common.c.
--   Player    src/client.c: `parse_input`, `set_rsd_params` and the loop that sends the input.
--   Resample  src/resampler.c: `resampler_new` and `resampler_cb_read` with
--             `resampler_get_required_frames` and `resampler_process`; Resample/Samples is the
--             conversions of samples.
--   OssEmul   src/oss-emul/librsoundoss.c: `open`, `write`, `read` and `close` on the table of
--             emulated descriptors; OssEmul/Ioctl is `ioctl`.
--   Cuse      src/cuse-ross/cuse-ross.c: the state of an open file, `ross_open`, `ross_poll`,
--             `ross_release` and the callbacks; Cuse/Start is `ross_start`, Cuse/Write is
--             `ross_write`, Cuse/Ioctl is `ross_ioctl` with `ioctl_prep_uarg`, and Cuse/Device is
--             `ross_op`: an open file under a sequence of requests.
--   Client    src/librsound/librsound.c: `rsound_t` as the record `Rsound`, `rsnd_reset`,
--             `rsd_stop` and the thread switch; Client/Param is `rsd_init` and `rsd_set_param`;
--             Client/Handshake is `rsnd_get_backend_info` with the server's `send_backend_info`;
--             Client/Text is `rsnd_send_identity_info`; Client/Connect is `rsd_start` with
--             `rsnd_connect_server` and `rsnd_create_connection`; Client/Write is `rsd_write`,
--             `rsnd_fill_buffer` and `rsnd_thread`; Client/Delay is `rsnd_drain`
--             and the calls that tell the delay; Client/Update is `rsnd_update_server_info`;
--             Client/Exec is `rsd_exec` with `rsnd_close_ctl`, `rsd_pause` and `rsd_simple_start`;
--             Client/Callback is `rsnd_cb_thread`.
--
-- Conventions. A number of the source is a native number with its wrap-around written out; a
-- signed result is `none` or a constructor where it is -1. Memory is a list of bytes, a C string
-- the list of its characters, a null pointer `none`. The byte order of the machine is an
-- argument, so that the theorems hold on both kinds. What the operating system answers to poll,
-- send, recv, socket, connect, calloc and pthread_create is an argument too; a loop over such
-- answers recurses on their list, and where the list ends it is still waiting. The loop of
-- `rsd_write` recurses on fuel, which starts at the size of the buffer: each pass writes a byte
-- or is the last. The loop of `ross_write` recurses on the list of its passes, each with what the
-- callbacks do around it; where the list ends, or no signal comes in a wait, it is blocked. The two
-- threads of a client exclude each other by a lock, so a run of both is a sequence of their critical
-- sections: `rsnd_thread` is a machine whose states are the places between them, a chunk in the
-- thread's own buffer included, `rsnd_fill_buffer` recurses on a list of turns, which say what the
-- other thread does between its steps, and a wait ends only by a signal that is sent during it.
--
-- Not modelled: the audio backends (src/drivers/alsa.c, src/drivers/oss.c and the others), which
-- are glue to sound libraries; the server's listening socket and options. `rsd_thread` takes the
-- resampler as a function. What the resampler computes in doubles, from a count of frames and the
-- ratio, and its operations on samples are parameters, since there is no floating point here.
-- The quotient of a sample and a float in `s16_to_float`, the product of a rate and a ratio, and
-- what a backend's latency subtracts from the server's count are parameters.
pub mod Base
pub mod Endian
pub mod Format
pub mod Fifo
pub mod Wav
pub mod Client
pub mod Convert
pub mod Cuse
pub mod Daemon
pub mod Net
pub mod OssEmul
pub mod Player
pub mod Proto
pub mod Resample
pub mod Server
