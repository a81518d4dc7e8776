-- ===== src/Cloud/Names/Fixed.antt =====
-- The names of the fixed columns of point data, and `ReservedPointAttributeNames`.
use usd_pointcloud_plugins.Prelude.{List, [], ◌∷◌, Bytes}

abbrev pub xyz_name : Bytes
xyz_name = b'x' ∷ b'y' ∷ b'z' ∷ []

abbrev pub intensity_name : Bytes
intensity_name = b'i' ∷ b'n' ∷ b't' ∷ b'e' ∷ b'n' ∷ b's' ∷ b'i' ∷ b't' ∷ b'y' ∷ []

abbrev pub return_number_name : Bytes
return_number_name =
    b'r' ∷ b'e' ∷ b't' ∷ b'u' ∷ b'r' ∷ b'n' ∷ b'N' ∷ b'u' ∷ b'm' ∷ b'b' ∷ b'e' ∷ b'r' ∷ []

abbrev pub number_of_returns_name : Bytes
number_of_returns_name =
    b'n' ∷ b'u' ∷ b'm' ∷ b'b' ∷ b'e' ∷ b'r' ∷ b'O' ∷ b'f' ∷ b'R' ∷ b'e' ∷ b't' ∷ b'u' ∷ b'r' ∷ b'n'
    ∷ b's' ∷ []

abbrev pub classification_name : Bytes
classification_name =
    b'c' ∷ b'l' ∷ b'a' ∷ b's' ∷ b's' ∷ b'i' ∷ b'f' ∷ b'i' ∷ b'c' ∷ b'a' ∷ b't' ∷ b'i' ∷ b'o' ∷ b'n'
    ∷ []

abbrev pub classification_flags_name : Bytes
classification_flags_name =
    b'c' ∷ b'l' ∷ b'a' ∷ b's' ∷ b's' ∷ b'i' ∷ b'f' ∷ b'i' ∷ b'c' ∷ b'a' ∷ b't' ∷ b'i' ∷ b'o' ∷ b'n'
    ∷ b'F' ∷ b'l' ∷ b'a' ∷ b'g' ∷ b's' ∷ []

abbrev pub scanner_channel_name : Bytes
scanner_channel_name =
    b's' ∷ b'c' ∷ b'a' ∷ b'n' ∷ b'n' ∷ b'e' ∷ b'r' ∷ b'C' ∷ b'h' ∷ b'a' ∷ b'n' ∷ b'n' ∷ b'e' ∷ b'l'
    ∷ []

abbrev pub scan_direction_flag_name : Bytes
scan_direction_flag_name =
    b's' ∷ b'c' ∷ b'a' ∷ b'n' ∷ b'D' ∷ b'i' ∷ b'r' ∷ b'e' ∷ b'c' ∷ b't' ∷ b'i' ∷ b'o' ∷ b'n' ∷ b'F'
    ∷ b'l' ∷ b'a' ∷ b'g' ∷ []

abbrev pub edge_of_flight_line_name : Bytes
edge_of_flight_line_name =
    b'e' ∷ b'd' ∷ b'g' ∷ b'e' ∷ b'O' ∷ b'f' ∷ b'F' ∷ b'l' ∷ b'i' ∷ b'g' ∷ b'h' ∷ b't' ∷ b'L' ∷ b'i'
    ∷ b'n' ∷ b'e' ∷ []

abbrev pub user_data_name : Bytes
user_data_name = b'u' ∷ b's' ∷ b'e' ∷ b'r' ∷ b'D' ∷ b'a' ∷ b't' ∷ b'a' ∷ []

abbrev pub scan_angle_name : Bytes
scan_angle_name = b's' ∷ b'c' ∷ b'a' ∷ b'n' ∷ b'A' ∷ b'n' ∷ b'g' ∷ b'l' ∷ b'e' ∷ []

abbrev pub point_source_id_name : Bytes
point_source_id_name =
    b'p' ∷ b'o' ∷ b'i' ∷ b'n' ∷ b't' ∷ b'S' ∷ b'o' ∷ b'u' ∷ b'r' ∷ b'c' ∷ b'e' ∷ b'I' ∷ b'd' ∷ []

abbrev pub red_name : Bytes
red_name = b'r' ∷ b'e' ∷ b'd' ∷ []

abbrev pub green_name : Bytes
green_name = b'g' ∷ b'r' ∷ b'e' ∷ b'e' ∷ b'n' ∷ []

abbrev pub blue_name : Bytes
blue_name = b'b' ∷ b'l' ∷ b'u' ∷ b'e' ∷ []

abbrev pub nir_name : Bytes
nir_name = b'n' ∷ b'i' ∷ b'r' ∷ []

abbrev pub gps_time_name : Bytes
gps_time_name = b'g' ∷ b'p' ∷ b's' ∷ b'T' ∷ b'i' ∷ b'm' ∷ b'e' ∷ []

abbrev pub waveform_descriptor_index_name : Bytes
waveform_descriptor_index_name =
    b'w' ∷ b'a' ∷ b'v' ∷ b'e' ∷ b'f' ∷ b'o' ∷ b'r' ∷ b'm' ∷ b'D' ∷ b'e' ∷ b's' ∷ b'c' ∷ b'r' ∷ b'i'
    ∷ b'p' ∷ b't' ∷ b'o' ∷ b'r' ∷ b'I' ∷ b'n' ∷ b'd' ∷ b'e' ∷ b'x' ∷ []

abbrev pub waveform_data_offset_name : Bytes
waveform_data_offset_name =
    b'w' ∷ b'a' ∷ b'v' ∷ b'e' ∷ b'f' ∷ b'o' ∷ b'r' ∷ b'm' ∷ b'D' ∷ b'a' ∷ b't' ∷ b'a' ∷ b'O' ∷ b'f'
    ∷ b'f' ∷ b's' ∷ b'e' ∷ b't' ∷ []

abbrev pub waveform_packet_size_name : Bytes
waveform_packet_size_name =
    b'w' ∷ b'a' ∷ b'v' ∷ b'e' ∷ b'f' ∷ b'o' ∷ b'r' ∷ b'm' ∷ b'P' ∷ b'a' ∷ b'c' ∷ b'k' ∷ b'e' ∷ b't'
    ∷ b'S' ∷ b'i' ∷ b'z' ∷ b'e' ∷ []

abbrev pub return_point_waveform_location_name : Bytes
return_point_waveform_location_name =
    b'r' ∷ b'e' ∷ b't' ∷ b'u' ∷ b'r' ∷ b'n' ∷ b'P' ∷ b'o' ∷ b'i' ∷ b'n' ∷ b't' ∷ b'W' ∷ b'a' ∷ b'v'
    ∷ b'e' ∷ b'f' ∷ b'o' ∷ b'r' ∷ b'm' ∷ b'L' ∷ b'o' ∷ b'c' ∷ b'a' ∷ b't' ∷ b'i' ∷ b'o' ∷ b'n' ∷ []

abbrev pub waveform_xt_name : Bytes
waveform_xt_name = b'w' ∷ b'a' ∷ b'v' ∷ b'e' ∷ b'f' ∷ b'o' ∷ b'r' ∷ b'm' ∷ b'X' ∷ b't' ∷ []

abbrev pub waveform_yt_name : Bytes
waveform_yt_name = b'w' ∷ b'a' ∷ b'v' ∷ b'e' ∷ b'f' ∷ b'o' ∷ b'r' ∷ b'm' ∷ b'Y' ∷ b't' ∷ []

abbrev pub waveform_zt_name : Bytes
waveform_zt_name = b'w' ∷ b'a' ∷ b'v' ∷ b'e' ∷ b'f' ∷ b'o' ∷ b'r' ∷ b'm' ∷ b'Z' ∷ b't' ∷ []

abbrev pub waveform_data_external_name : Bytes
waveform_data_external_name =
    b'w' ∷ b'a' ∷ b'v' ∷ b'e' ∷ b'f' ∷ b'o' ∷ b'r' ∷ b'm' ∷ b'D' ∷ b'a' ∷ b't' ∷ b'a' ∷ b'E' ∷ b'x'
    ∷ b't' ∷ b'e' ∷ b'r' ∷ b'n' ∷ b'a' ∷ b'l' ∷ []

abbrev pub waveform_data_file_name : Bytes
waveform_data_file_name =
    b'w' ∷ b'a' ∷ b'v' ∷ b'e' ∷ b'f' ∷ b'o' ∷ b'r' ∷ b'm' ∷ b'D' ∷ b'a' ∷ b't' ∷ b'a' ∷ b'F' ∷ b'i'
    ∷ b'l' ∷ b'e' ∷ []

abbrev pub reserved_names : List Bytes
reserved_names =
    xyz_name ∷ intensity_name ∷ return_number_name ∷ number_of_returns_name ∷ classification_name
    ∷ classification_flags_name ∷ scanner_channel_name ∷ scan_direction_flag_name
    ∷ edge_of_flight_line_name ∷ user_data_name ∷ scan_angle_name ∷ point_source_id_name ∷ red_name
    ∷ green_name ∷ blue_name ∷ nir_name ∷ gps_time_name ∷ waveform_descriptor_index_name
    ∷ waveform_data_offset_name ∷ waveform_packet_size_name ∷ return_point_waveform_location_name
    ∷ waveform_xt_name ∷ waveform_yt_name ∷ waveform_zt_name ∷ waveform_data_external_name
    ∷ waveform_data_file_name ∷ []
