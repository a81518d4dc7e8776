-- ===== src/Cloud/Sampling.antt =====
-- `SamplePointData` of libs/usd-pointcloud-core/src/Sampling.cpp: a fixed-stride sample of the points.
-- The source and the sampled data are two values here, so the test that they are distinct objects has no
-- counterpart.
pub mod Stride
pub mod Valid
use usd_pointcloud_plugins.Prelude.{
  ℕ, zero, suc, ◌+◌, ◌*◌, ◌/◌, ◌%◌, ◌^◌, Bool, true, false, not, ◌&&◌, if◌then◌else◌, leb, ◌==◌,
  List, [], ◌∷◌, ◌++◌, Bytes, bytes_eq, length, take, drop, get_or, map,
}
use usd_pointcloud_plugins.Core.Bounds.{Vec3d}
use usd_pointcloud_plugins.Core.Diagnostic.{Diagnostic, DiagnosticCode, an_error, Checked, ok, err}
use usd_pointcloud_plugins.Cloud.PointData.{PointData, point_data_is_valid, component_counts}

-- "fixed-stride"
abbrev pub fixed_stride : Bytes
fixed_stride =
    b'f' ∷ b'i' ∷ b'x' ∷ b'e' ∷ b'd' ∷ b'-' ∷ b's' ∷ b't' ∷ b'r' ∷ b'i' ∷ b'd' ∷ b'e' ∷ []

pub record SamplingOptions : Type 0 where
  pub target_point_count : ℕ
  pub algorithm : Bytes
  pub algorithm_version : ℕ

unfoldable pub options_are_valid : SamplingOptions → ℕ → Bool
options_are_valid o count =
    not (o.target_point_count == 0)
    && leb o.target_point_count count
    && bytes_eq o.algorithm fixed_stride
    && o.algorithm_version == 1

-- `index * sourcePointCount / targetPointCount` on 64 bits.
unfoldable pub source_index : ℕ → ℕ → ℕ → ℕ
source_index count target index = (index * count) % 2 ^ 64 / target

-- The indices of the sample, with `n` left from `index`.
unfoldable pub source_indices : ℕ → ℕ → ℕ → ℕ → List ℕ
source_indices count target index zero = []
source_indices count target index (suc n) =
    source_index count target index ∷ source_indices count target (suc index) n

-- `default` stands for what would be read behind the end; validity rules that out.
unfoldable pub sample_attribute {ℓ} : {A : Type ℓ} → A → List A → List ℕ → List A
sample_attribute default [] indices = []
sample_attribute default (x ∷ source) indices = map (λ i. get_or (x ∷ source) i default) indices

unfoldable pub sample_components : List ℕ → ℕ → List ℕ → List ℕ
sample_components source components [] = []
sample_components source components (i ∷ indices) =
    take components (drop (i * components) source) ++ sample_components source components indices

unfoldable pub sample_extra_byte_attribute : List ℕ → ℕ → List ℕ → List ℕ
sample_extra_byte_attribute [] components indices = []
sample_extra_byte_attribute (x ∷ source) components indices =
    sample_components (x ∷ source) components indices

unfoldable pub sample_extra_bytes : List ℕ → List (List ℕ) → List ℕ → List (List ℕ)
sample_extra_bytes (c ∷ counts) (values ∷ columns) indices =
    sample_extra_byte_attribute values c indices ∷ sample_extra_bytes counts columns indices
sample_extra_bytes counts columns indices = []

abbrev pub origin : Vec3d
origin = record { x = 0; y = 0; z = 0 }

unfoldable pub sampled : PointData → List ℕ → PointData
sampled d indices = record d {
  positions = sample_attribute origin d.positions indices;
  intensity = sample_attribute 0 d.intensity indices;
  return_number = sample_attribute 0 d.return_number indices;
  number_of_returns = sample_attribute 0 d.number_of_returns indices;
  classification = sample_attribute 0 d.classification indices;
  classification_flags = sample_attribute 0 d.classification_flags indices;
  scanner_channel = sample_attribute 0 d.scanner_channel indices;
  scan_direction_flag = sample_attribute 0 d.scan_direction_flag indices;
  edge_of_flight_line = sample_attribute 0 d.edge_of_flight_line indices;
  user_data = sample_attribute 0 d.user_data indices;
  scan_angle = sample_attribute 0 d.scan_angle indices;
  point_source_id = sample_attribute 0 d.point_source_id indices;
  red = sample_attribute 0 d.red indices;
  green = sample_attribute 0 d.green indices;
  blue = sample_attribute 0 d.blue indices;
  nir = sample_attribute 0 d.nir indices;
  gps_time = sample_attribute 0 d.gps_time indices;
  waveform_descriptor_index = sample_attribute 0 d.waveform_descriptor_index indices;
  waveform_data_offset = sample_attribute 0 d.waveform_data_offset indices;
  waveform_packet_size = sample_attribute 0 d.waveform_packet_size indices;
  return_point_waveform_location = sample_attribute 0 d.return_point_waveform_location indices;
  waveform_xt = sample_attribute 0 d.waveform_xt indices;
  waveform_yt = sample_attribute 0 d.waveform_yt indices;
  waveform_zt = sample_attribute 0 d.waveform_zt indices;
  waveform_data_external = sample_attribute 0 d.waveform_data_external indices;
  extra_bytes =
      sample_extra_bytes (component_counts d.extra_byte_component_counts d.extra_bytes)
        d.extra_bytes indices;
}

unfoldable pub sample_point_data : PointData → SamplingOptions → Checked PointData
sample_point_data d o =
    let count = length d.positions in
    if not (point_data_is_valid d)
    then err (an_error DiagnosticCode.invalid_lod_item "point data is invalid" ∷ [])
    else (if not (options_are_valid o count)
        then err
            (an_error DiagnosticCode.invalid_lod_item "point sampling options are invalid" ∷ [])
        else ok (sampled d (source_indices count o.target_point_count 0 o.target_point_count)))
