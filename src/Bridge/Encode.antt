-- ===== src/Bridge/Encode.antt =====
-- src/bridge/phone_api.cpp: the encoders. An encoder starts with an empty vector and calls the
-- writers in a row, so its result is the concatenation of what they append.
use quadrf_mesh.Base.{
  ℕ, true, false, Option, none, some, List, [], ◌++◌, ◌==◌, not, if◌then◌else◌, length,
}
use quadrf_mesh.Base.Words.{bytes}
use quadrf_mesh.Pb.Wire.{write_u32, write_bool, write_fixed32, write_float, write_bytes}
use quadrf_mesh.Bridge.Types.{
  Data, MeshPacketPb, ToRadioKind, ToRadio, FromRadioKind, MyNodeInfo, DeviceMetadata,
  ChannelSettings, Channel, NodeUser, NodeInfo, FromRadio,
}

-- The overload for vectors, also behind `writeString` and `writeSubmessage`.
abbrev pub write_vector : ℕ → List ℕ → List ℕ
write_vector field xs = write_bytes field (bytes xs) false

unfoldable pub encode_my_info : MyNodeInfo → List ℕ
encode_my_info m =
    write_u32 1 m.my_node_num ++ (write_u32 8 m.reboot_count ++ write_u32 11 m.min_app_version)

unfoldable pub encode_metadata : DeviceMetadata → List ℕ
encode_metadata m =
    write_vector 1 m.firmware_version
    ++ (write_u32 2 m.device_state_version
        ++ (write_bool 3 m.can_shutdown
            ++ (write_bool 4 m.has_wifi
                ++ (write_bool 5 m.has_bluetooth
                    ++ (write_u32 7 m.role ++ write_u32 9 m.hw_model)))))

unfoldable pub encode_user : NodeUser → List ℕ
encode_user u =
    write_vector 1 u.id
    ++ (write_vector 2 u.long_name
        ++ (write_vector 3 u.short_name ++ (write_u32 5 u.hw_model ++ write_u32 7 u.role)))

unfoldable pub encode_node_info : NodeInfo → List ℕ
encode_node_info n =
    write_u32 1 n.num
    ++ (write_vector 2 (encode_user n.user)
        ++ (write_float 4 n.snr ++ write_fixed32 5 n.last_heard))

unfoldable pub encode_channel_settings : ChannelSettings → List ℕ
encode_channel_settings s = write_vector 1 s.psk ++ write_vector 2 s.name

unfoldable pub encode_channel : Channel → List ℕ
encode_channel c =
    (if not (c.index == 0) then write_u32 1 c.index else [])
    ++ (write_vector 2 (encode_channel_settings c.settings) ++ write_u32 3 c.role)

unfoldable pub encode_queue_status : FromRadio → List ℕ
encode_queue_status m =
    write_u32 1 m.res
    ++ (write_u32 2 m.free ++ (write_u32 3 m.maxlen ++ write_u32 4 m.mesh_packet_id))

unfoldable pub encode_data : Data → List ℕ
encode_data d =
    write_u32 1 d.portnum
    ++ (write_vector 2 d.payload
        ++ (write_bool 3 d.want_response
            ++ (write_fixed32 4 d.dest
                ++ (write_fixed32 5 d.source
                    ++ (write_fixed32 6 d.request_id ++ write_fixed32 7 d.reply_id)))))

-- `if (p.decoded) ... else if (!p.encrypted.empty()) ...`.
unfoldable pub encode_content : Option Data → List ℕ → List ℕ
encode_content (some d) encrypted = write_vector 4 (encode_data d)
encode_content none encrypted = if not (length encrypted == 0) then write_vector 5 encrypted else []

unfoldable pub encode_mesh_packet : MeshPacketPb → List ℕ
encode_mesh_packet p =
    write_fixed32 1 p.from
    ++ (write_fixed32 2 p.to
        ++ (write_u32 3 p.channel
            ++ (encode_content p.decoded p.encrypted
                ++ (write_fixed32 6 p.id
                    ++ (write_fixed32 7 p.rx_time
                        ++ (write_float 8 p.rx_snr
                            ++ (write_u32 9 p.hop_limit
                                ++ (write_bool 10 p.want_ack
                                    ++ (write_u32 12 p.rx_rssi
                                        ++ (write_bool 14 p.via_mqtt
                                            ++ (write_u32 15 p.hop_start
                                                ++ (write_u32 18 p.next_hop
                                                    ++ write_u32 19 p.relay_node))))))))))))

unfoldable pub to_radio_body : ToRadioKind → ToRadio → List ℕ
to_radio_body ToRadioKind.packet m = write_vector 1 (encode_mesh_packet m.packet)
to_radio_body ToRadioKind.want_config m = write_u32 3 m.want_config_id
to_radio_body ToRadioKind.disconnect m = write_bool 4 true
to_radio_body ToRadioKind.heartbeat m = write_bytes 7 (bytes []) true
to_radio_body ToRadioKind.none m = []

unfoldable pub encode_to_radio : ToRadio → List ℕ
unfolding to_radio_body
encode_to_radio m = to_radio_body m.kind m

unfoldable pub from_radio_body : FromRadioKind → FromRadio → List ℕ
from_radio_body FromRadioKind.packet m = write_vector 2 (encode_mesh_packet m.packet)
from_radio_body FromRadioKind.my_info m = write_vector 3 (encode_my_info m.my_info)
from_radio_body FromRadioKind.node_info m = write_vector 4 (encode_node_info m.node_info)
from_radio_body FromRadioKind.config m = write_vector 5 m.config_bytes
from_radio_body FromRadioKind.config_complete m = write_u32 7 m.config_complete_id
from_radio_body FromRadioKind.rebooted m = write_bool 8 true
from_radio_body FromRadioKind.module_config m = write_vector 9 m.module_config_bytes
from_radio_body FromRadioKind.channel m = write_vector 10 (encode_channel m.channel)
from_radio_body FromRadioKind.queue_status m = write_vector 11 (encode_queue_status m)
from_radio_body FromRadioKind.metadata m = write_vector 13 (encode_metadata m.metadata)
from_radio_body FromRadioKind.none m = []

unfoldable pub encode_from_radio : FromRadio → List ℕ
unfolding from_radio_body
encode_from_radio m = write_u32 1 m.id ++ from_radio_body m.kind m
