-- ===== src/Lib.antt =====
-- A model of emskin, a Wayland compositor for Emacs: the proxy that carries its input method over
-- D-Bus, the socket Emacs talks to it over, and the state of its workspaces, frames and embedded
-- windows; with the theorems on them. Paths are from the root of the repository.
--
-- emskin runs a D-Bus proxy between each embedded client and the session bus. Bytes of a client go
-- through the state machine of its connection (Broker), which finds the end of the SASL handshake
-- (Wire.Sasl) and cuts the rest into messages (Wire.Frame). The proxy (Proxy) parses each message,
-- answers the calls that are meant for fcitx (Fcitx) with frames of its own (Wire.Builder), turns
-- them into events for the input method (Ime), and sends the others on, with their file
-- descriptors. Bytes of the bus are forwarded, and read on the way to learn the name of the fcitx
-- server. Emacs itself talks to the compositor over a socket of its own (Ipc): the messages that
-- arrive there, the new windows of clients and their commits change the workspaces, the frames of
-- Emacs and the embedded windows (Desktop). A display for X clients is claimed with a lock file
-- (Display), and its sockets are watched until a client connects (Watch). The clipboard is shared
-- with the host: a backend for an X11 host (Clipboard.X11) or for a Wayland host
-- (Clipboard.DataControl) turns what the host does into events, which the compositor handles
-- (Clipboard.Bridge), and it hands the selections of its clients to the backend. At each frame the
-- recorder takes a picture or a frame of a video (Recorder).
--
--   Prelude               Boolean tests, lists, integers and results over the native numbers.
--   Wire.Sasl             crates/emskin-dbus/src/wire/sasl.rs: `find_begin_end` and its helpers.
--   Wire.Zvariant, Wire.Body   what the code uses of the crates `zvariant` and `serde`, as records.
--   Wire.Header, Wire.Frame, Wire.Builder   crates/emskin-dbus/src/wire/frame.rs: `Headers`, `Frame`
--                         (`bytes_needed`, `parse`, `encode`), `FrameBuilder`, `SerialCounter`.
--   Broker                crates/emskin-dbus/src/broker/state.rs: `ConnectionState`.
--   Fcitx                 crates/emskin-dbus/src/fcitx.rs: `classify`, `InputContextAllocator`,
--                         `build_reply`.
--   Proxy.Packets         crates/emskin-dbus/src/proxy/mod.rs: `OutPacket`, `try_flush`.
--   Proxy.Connection      the same file: `Connection` and the two pumps; Names is what it learns of
--                         the server's name, Client and Upstream are the two directions.
--   Proxy.Preedit         crates/emskin-dbus/src/proxy/signals.rs.
--   Proxy.Table           crates/emskin-dbus/src/proxy/mod.rs: `DbusBroker`, its table of
--                         connections; Signals is the frames it sends to clients.
--   Ipc.Server            crates/emskin/src/ipc/mod.rs: `IpcServer`, on top of `IpcConn`.
--   Desktop               crates/emskin/src/state/: mod.rs, workspace.rs, apps.rs, emacs.rs, the
--                         state. Access reads and changes it, Workspaces is workspace.rs, Dispatch
--                         is ipc/dispatch.rs on the messages of ipc/messages.rs, Frames is the
--                         frames of Emacs in tick.rs, Tick is the apps in tick.rs and `commit` of
--                         handlers/compositor.rs, Placement is where all of it maps windows.
--   Watch                 crates/emskin/src/xwayland_satellite/watch.rs.
--   Display               crates/emskin/src/xwayland_satellite/sockets.rs: `setup_connection`; Setup
--                         is what it leaves of the locks of others.
--   Clipboard             crates/emskin-clipboard/src/backend.rs: the events.
--   Clipboard.X11         crates/emskin-clipboard/src/x11.rs: `X11ClipboardProxy`; Incoming is what
--                         comes from the host, Outgoing what goes to it, Run any sequence of events
--                         and calls, Echo our changes and those of others.
--   Clipboard.DataControl crates/emskin-clipboard/src/data_control.rs: `ClipboardState`.
--   Clipboard.Bridge      crates/emskin/src/clipboard_bridge.rs and handlers/selection.rs.
--   Recorder              crates/emskin/src/recording.rs: `Recorder`, `VideoEncoder`,
--                         `write_screenshot`; Frames is what it does at each frame.
--   Ipc                   crates/emskin/src/ipc/connection.rs: `IpcConn`.
--   Ime                   crates/emskin/src/state/ime.rs: `ImeBridge`; Owner has the operations, Sync
--                         is `sync_to_winit`.
--   Runs                  the theorems on concrete inputs, with small codecs in Demo.
--
-- State is passed on explicitly: an operation takes the record and returns the new one, with what it
-- sends. An error is a value of `Result`; a panic does not occur in what is modelled, apart from
-- the overflow of a 64-bit counter. A byte is a number, a descriptor is a number, a text is its
-- UTF-8 bytes. What the kernel answers to `recvmsg`, `sendmsg`, `read` and `write` is an argument.
--
-- The `Space` of the crate smithay, which holds the mapped windows, is a parameter of Desktop with
-- its laws (`SpaceOps`, `SpaceLaws`), so are the parsing and the printing of JSON. Calls that leave
-- the state alone, to a client, to the seat or to Emacs, are kept in order in a list of `Call`. A
-- `HashMap` is a list of entries, and its order is the order of the list.
--
-- Loops run on fuel where they are not structural: the scan of the handshake has one unit for each
-- byte and takes two bytes at least in a round; the two loops over buffered messages have one unit
-- for each byte, and a message has 16 bytes at least; the padding has 8 units and needs at most 7;
-- a decimal of 64 bits has at most 20 digits. `stuck` is what the scan and the first message loop
-- return without fuel, and the loop of the other direction returns its state. The loop over the
-- messages of Emacs has one unit for each byte and one more, and a message has four bytes at least.
--
-- In Display the 256 displays and the 50 retries are the bounds of the code itself. What the X
-- server answers to the clipboard, what the reads of a pipe give, what the writes take, and what
-- ffmpeg, its queue and the renderer answer to the recorder are arguments too, and so is what `kill`
-- answers. A request to the X
-- server or to the host is kept in a list in order, and so is a descriptor that is closed. Of a
-- lock file the white space of ASCII is trimmed. The time between two frames, 1/fps in nanoseconds,
-- is a parameter.
--
-- Integers of 32 bits wrap where the code wraps (`bump`, `wrap_i32`); sizes are checked as the code
-- checks them. Floating-point numbers are bit patterns with the operations as a parameter.
--
-- Not modelled: sockets and system calls, logging, rendering and the geometry of the output, the
-- effects, the bar, keyboard and pointer input, floating dialogs, the hit test of mirrors, the
-- workspace protocol, the connection setup of the clipboard backends and the backend on
-- wl_data_device, and the calls to text-input clients. The counters of 64 bits that name windows,
-- frames and transfers, and the counters of 32 bits of changes to suppress, do not overflow here.
pub mod Prelude
pub mod Wire
pub mod Broker
pub mod Clipboard
pub mod Desktop
pub mod Fcitx
pub mod Proxy
pub mod Ipc
pub mod Ime
pub mod Watch
pub mod Display
pub mod Recorder
pub mod Runs
