-- ===== src/Phison/Apart/Tensors.antt =====
-- phison_version/nvme_transfer/layer_manager.cpp: the bytes of different tensors on the device.
use nvme_ioctl.Phison.Apart.{Apart}
