-- ===== src/Session.antt =====
-- src/server.go, the parts of handleClient and handleMTProtoClient that make a session of the client's first
-- packet, with the client's side of bridgeWS (src/transport.go) behind it: the handshake, the proxy's
-- own first packet, the ciphers, and the loop, composed.
pub mod EndToEnd
mod Tests
use tg_ws_proxy_go.Base.{List, Option, some, Bytes, ◌>>=◌}
use tg_ws_proxy_go.Splitter.{new_splitter}
use tg_ws_proxy_go.Crypto.Stream.{KeyStream}
use tg_ws_proxy_go.Crypto.Dc.{proto_from_tag, signed_dc}
use tg_ws_proxy_go.Crypto.Handshake.{HandshakeInfo, try_handshake}
use tg_ws_proxy_go.Crypto.RelayInit.{generate_relay_init}
use tg_ws_proxy_go.Crypto.Ciphers.{Ciphers, build_ciphers}
use tg_ws_proxy_go.Bridge.{bridge_up}

pub record Opened : Type 0 where
  pub info : HandshakeInfo
  pub relay_init : Bytes
  pub ciphers : Ciphers

module _ (sha256 : Bytes → Bytes) (ctr : KeyStream) where
  -- `none` stands for a bad handshake, a failed cipher, and a loop of draws that finds no usable one.
  unfoldable pub open_session : List Bytes → Bytes → Bytes → Bytes → Option Opened
  open_session draws salt handshake secret = do
    info ← try_handshake sha256 ctr handshake secret
    relay_init ← generate_relay_init ctr draws salt info.proto_tag (signed_dc info.dc info.is_media)
    ciphers ← build_ciphers sha256 ctr info.client_dec_i relay_init secret
    some (record { info = info; relay_init = relay_init; ciphers = ciphers })

  -- The messages of a session to Telegram, from the client's reads behind its first packet.
  unfoldable pub session_up : Opened → List Bytes → List Bytes
  session_up o chunks =
      bridge_up ctr (new_splitter (proto_from_tag o.info.proto_tag)) o.ciphers.clt_dec
        o.ciphers.tg_enc chunks
