-- ===== src/Usb/Structs.antt =====
-- The packed structs of src/usb.h that src/usb.cpp sends, and the bytes that they stand for.
use ln_dso_stm32_dfu_bootloa.Common.{ℕ, ◌/◌, ◌%◌, List, [], ◌∷◌, ◌++◌}

-- a uint16_t of a packed struct
abbrev pub le16 : ℕ → List ℕ
le16 v = v % 256 ∷ v / 256 ∷ []

-- `struct usb_dfu_descriptor`
pub record DfuDescriptor : Type 0 where
  pub b_length : ℕ
  pub b_descriptor_type : ℕ
  pub bm_attributes : ℕ
  pub w_detach_timeout : ℕ
  pub w_transfer_size : ℕ
  pub bcd_dfu_version : ℕ

abbrev pub dfu_descriptor_bytes : DfuDescriptor → List ℕ
dfu_descriptor_bytes d =
    d.b_length ∷ d.b_descriptor_type ∷ d.bm_attributes ∷ le16 d.w_detach_timeout
    ++ le16 d.w_transfer_size
    ++ le16 d.bcd_dfu_version

-- `struct usb_device_descriptor`
pub record DeviceDescriptor : Type 0 where
  pub b_length : ℕ
  pub b_descriptor_type : ℕ
  pub bcd_usb : ℕ
  pub b_device_class : ℕ
  pub b_device_sub_class : ℕ
  pub b_device_protocol : ℕ
  pub b_max_packet_size0 : ℕ
  pub id_vendor : ℕ
  pub id_product : ℕ
  pub bcd_device : ℕ
  pub i_manufacturer : ℕ
  pub i_product : ℕ
  pub i_serial_number : ℕ
  pub b_num_configurations : ℕ

abbrev pub device_descriptor_bytes : DeviceDescriptor → List ℕ
device_descriptor_bytes d =
    d.b_length ∷ d.b_descriptor_type ∷ le16 d.bcd_usb
    ++ d.b_device_class
      ∷ d.b_device_sub_class
      ∷ d.b_device_protocol
      ∷ d.b_max_packet_size0
      ∷ le16 d.id_vendor
    ++ le16 d.id_product
    ++ le16 d.bcd_device
    ++ d.i_manufacturer ∷ d.i_product ∷ d.i_serial_number ∷ d.b_num_configurations ∷ []

-- `struct usb_config_descriptor`
pub record ConfigDescriptor : Type 0 where
  pub b_length : ℕ
  pub b_descriptor_type : ℕ
  pub w_total_length : ℕ
  pub b_num_interfaces : ℕ
  pub b_configuration_value : ℕ
  pub i_configuration : ℕ
  pub bm_attributes : ℕ
  pub b_max_power : ℕ

abbrev pub config_descriptor_bytes : ConfigDescriptor → List ℕ
config_descriptor_bytes d =
    d.b_length ∷ d.b_descriptor_type ∷ le16 d.w_total_length
    ++ d.b_num_interfaces ∷ d.b_configuration_value ∷ d.i_configuration ∷ d.bm_attributes
      ∷ d.b_max_power ∷ []

-- `struct usb_interface_descriptor`
pub record InterfaceDescriptor : Type 0 where
  pub b_length : ℕ
  pub b_descriptor_type : ℕ
  pub b_interface_number : ℕ
  pub b_alternate_setting : ℕ
  pub b_num_endpoints : ℕ
  pub b_interface_class : ℕ
  pub b_interface_sub_class : ℕ
  pub b_interface_protocol : ℕ
  pub i_interface : ℕ

abbrev pub interface_descriptor_bytes : InterfaceDescriptor → List ℕ
interface_descriptor_bytes d =
    d.b_length ∷ d.b_descriptor_type ∷ d.b_interface_number ∷ d.b_alternate_setting
    ∷ d.b_num_endpoints ∷ d.b_interface_class ∷ d.b_interface_sub_class ∷ d.b_interface_protocol
    ∷ d.i_interface ∷ []
